-- ===== src/Compute.antt =====
-- compute/: the agent of a compute node.
pub mod Agent
