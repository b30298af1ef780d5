-- ===== src/Tests.antt =====
-- Every property with hypotheses, at a concrete input.
mod Agent
mod Commons
mod Stores
mod Placement
mod Reconciler
mod Tracker
