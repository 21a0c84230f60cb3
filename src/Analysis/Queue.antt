-- ===== src/Analysis/Queue.antt =====
-- analysis/signal_queue.py: `SignalCaseQueue`.
pub mod State
pub mod Methods
pub mod Moves
pub mod Refinement
pub mod Steps
pub mod Invariants
pub mod Replay
pub mod Conflicts
pub mod Receipts
pub mod Keys
pub mod History
pub mod Ranking
pub mod Choice
pub mod Starting
pub mod Created
pub mod Life
pub mod Closing
mod Samples
mod Tests
