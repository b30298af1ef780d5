-- ===== src/Commons.antt =====
-- commons: the economic layer of the tracker.
pub mod Account
pub mod Credit
pub mod Ledger
pub mod Price
pub mod Scheduler
