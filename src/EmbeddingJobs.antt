-- ===== src/EmbeddingJobs.antt =====
-- enfold/embedding_jobs.py: the outbox of facts that wait for their embedding, and its workers.
pub mod Rows
pub mod Outbox
pub mod Processor
pub mod Commit
pub mod WellFormed
pub mod Preserved
pub mod Reachable
pub mod Due
pub mod Claimed
pub mod Fence
pub mod Stored
pub mod Coverage
pub mod DeadLetters
pub mod GivenUp
mod Tests
