-- ===== src/Orchestration.antt =====
-- Bounded work on the cases of a run
-- (plugin/trusted-ceo-agent/trusted_ceo_agent/orchestration/).
pub mod Items
pub mod Refresh
pub mod Easing
pub mod Evolving
pub mod Budget
pub mod Graph
pub mod Scheduler
pub mod Checkpoint
mod Tests
