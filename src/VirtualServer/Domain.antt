-- ===== src/VirtualServer/Domain.antt =====
-- virtualserver/domain: the lifecycles, and the paths that name instances.
pub mod Instance
pub mod Manifest
pub mod Mount
pub mod Node
pub mod Operation
pub mod Path
pub mod Volume
