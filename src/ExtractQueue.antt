-- ===== src/ExtractQueue.antt =====
-- enfold/extract_queue.py, enfold/extraction_spans.py (normalize_transcript): the persistent queue
-- of transcripts that wait for extraction.
pub mod Rows
pub mod Payload
pub mod Enqueue
pub mod Claim
pub mod Finish
pub mod Revive
pub mod WellFormed
pub mod Preserved
pub mod Activated
pub mod Oldest
pub mod Leases
pub mod Fence
pub mod Reports
pub mod Idempotent
pub mod Retry
pub mod Exclusive
pub mod Reachable
mod Tests
