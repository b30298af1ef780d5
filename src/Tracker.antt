-- ===== src/Tracker.antt =====
-- tracker: the BitTorrent tracker and the control of the managed nodes.
pub mod Address
pub mod Admission
pub mod Announce
pub mod CircuitBreaker
pub mod Controller
pub mod Nodes
pub mod Replica
pub mod Reaper
pub mod Replication
pub mod Swarm
pub mod Udp
pub mod VerifyState
pub mod Whitelist
