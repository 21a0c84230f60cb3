-- ===== src/Analysis/Materialize.antt =====
-- analysis/signal_queue.py: `materialize_signal_cases` and what it calls.
pub mod Specs
pub mod Merging
pub mod Building
pub mod Exclusive
pub mod Documents
pub mod Relations
