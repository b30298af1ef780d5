-- ===== src/Tests/Tracker.antt =====
-- The tracker at concrete inputs.
mod Announces
mod Controllers
mod Machines
mod Udp
