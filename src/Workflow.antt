-- ===== src/Workflow.antt =====
-- The run's workflow (plugin/trusted-ceo-agent/trusted_ceo_agent/workflow/).
pub mod States
pub mod Rules
pub mod Transition
pub mod Completion
