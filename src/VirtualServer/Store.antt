-- ===== src/VirtualServer/Store.antt =====
-- virtualserver/store: the tables of the SQLite database, and the errors of the operations on them.
-- A table is a map from its primary key; a statement that violates a constraint of
-- store/migrations.go changes nothing and fails. Integers are unbounded.
pub mod Allocations
pub mod Idempotency
pub mod Instances
pub mod Nodes
pub mod Operations
pub mod Volumes
