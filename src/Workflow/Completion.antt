-- ===== src/Workflow/Completion.antt =====
-- workflow/completion.py: whether a run may be finished.
pub mod Findings
pub mod Assessing
pub mod Readiness
mod Tests
