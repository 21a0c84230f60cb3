-- ===== src/Orchestration/Scheduler.antt =====
-- orchestration/scheduler.py: `WorkScheduler`, by the methods' parts.
pub mod State
pub mod Leasing
pub mod Reporting
pub mod Sweeping
pub mod Calls
pub mod Quiet
pub mod QuietSweeps
pub mod Choice
pub mod Soundness
pub mod Permanence
pub mod Freezing
pub mod Idempotence
pub mod Building
pub mod Resuming
