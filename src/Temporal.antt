-- ===== src/Temporal.antt =====
-- enfold/temporal.py: value updates, supersession without deletion, and as-of reads.
pub mod Words
pub mod Updates
pub mod Restatement
pub mod Symmetry
pub mod Supersede
pub mod Superseded
pub mod Retired
pub mod AsOf
pub mod Visible
mod Tests
