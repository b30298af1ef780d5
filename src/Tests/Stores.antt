-- ===== src/Tests/Stores.antt =====
-- The stores of virtualserver/store at concrete tables.
mod Allocations
mod Volumes
mod Lifecycles
mod Idempotency
