-- ===== src/Tracker/Announce.antt =====
-- tracker/announce.go: the handler of one announce, phase by phase. No other announce changes the
-- torrent or the user while the handler runs.
pub mod Account
pub mod Charges
pub mod Counters
pub mod Handler
pub mod Limits
pub mod Locate
pub mod Outcome
pub mod Request
pub mod Sizes
pub mod Totals
