-- ===== src/Grading.antt =====
-- Grading of an issue (plugin/trusted-ceo-agent/trusted_ceo_agent/grading/).
pub mod Inputs
pub mod Grader
pub mod Reducer
mod Tests
