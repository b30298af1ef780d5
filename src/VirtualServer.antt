-- ===== src/VirtualServer.antt =====
-- virtualserver/: the registry of nodes, services, instances and volumes.
pub mod Domain
pub mod Store
pub mod Reconciler
pub mod Scheduler
