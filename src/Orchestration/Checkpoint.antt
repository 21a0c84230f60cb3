-- ===== src/Orchestration/Checkpoint.antt =====
-- orchestration/checkpoint.py: the checkpoints of a run's work, and the items restored from one.
pub mod States
pub mod Verification
pub mod Restoration
mod Tests
