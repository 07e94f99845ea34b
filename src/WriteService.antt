-- ===== src/WriteService.antt =====
-- enfold/write_service.py: the transaction that admits a write, decides on it, carries it out and
-- logs it.
pub mod Contradict
pub mod Rows
pub mod Ledger
pub mod Log
pub mod Typed
pub mod Plan
pub mod Queries
pub mod Slots
pub mod Untyped
pub mod Carry
pub mod Write
pub mod Frames
pub mod Parts
pub mod Sessions
pub mod Trail
pub mod Traced
pub mod Histories
pub mod Atomic
pub mod Registered
pub mod Replay
pub mod Retry
pub mod Reused
pub mod Effects
pub mod Attributed
pub mod Guarded
mod Tests
