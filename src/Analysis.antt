-- ===== src/Analysis.antt =====
-- The analysis of a run's signals (plugin/trusted-ceo-agent/trusted_ceo_agent/analysis/).
pub mod Cases
pub mod Queue
pub mod Materialize
pub mod Pipeline
mod Tests
