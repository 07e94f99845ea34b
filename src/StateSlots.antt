-- ===== src/StateSlots.antt =====
-- enfold/state_slots.py: typed-state decisions and durable conflict records.
pub mod Keys
pub mod Canonical
pub mod Candidate
pub mod Reads
pub mod Decide
pub mod Authority
pub mod Freshness
pub mod Disputes
pub mod Tables
pub mod Conflicts
pub mod Resolve
pub mod Index
pub mod Frames
pub mod Opened
pub mod Settled
pub mod Closed
mod Tests
