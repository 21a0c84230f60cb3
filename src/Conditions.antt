-- ===== src/Conditions.antt =====
-- contracts/condition_dsl.py: the condition language.
pub mod Syntax
pub mod Validation
pub mod Limits
mod Tests
