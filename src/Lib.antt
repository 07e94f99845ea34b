-- ===== src/Lib.antt =====
-- Enfold, a local memory for agents: facts in SQLite with typed state, conflicts, temporal
-- validity, a queue of transcripts that wait for extraction, and a policy on who may write what.
-- This library models the modules that decide these things and leaves the daemon, the models and
-- the tools around them out.
--
-- ExtractQueue (enfold/extract_queue.py, and the checks of enfold/extraction_spans.py): the
-- table with its partial unique index (Rows), the payload as it is stored (Payload), enqueue
-- (Enqueue), next_pending (Claim), the reports of a claim's owner (Finish), revive_dead and
-- revive_recent_quota_dead (Revive). The other modules of that tree are proofs. Instants are
-- microseconds; created_at is the second that SQLite stamps. SHA-256, the JSON encoder and the
-- screen for credentials are parameters. The migration of old tables and the random delay of
-- quota_retry_delay are not modelled.
--
-- FactStore and Timestamps: the rows of facts, fact_conflicts, fact_conflict_members,
-- fact_conflict_resolutions and memory_sessions, and the reading of instants (_parse_timestamp,
-- _parse_clock, _intervals_overlap). datetime.fromisoformat is a parameter. An authority is a
-- number of 2^-1074, so that each double in [0, 1] is a whole number of them. The columns that
-- the migrations add are taken as present.
--
-- StateSlots (enfold/state_slots.py): keys (Keys), the candidate of a write (Candidate), reads
-- of a slot (Reads), decide_state_write (Decide), the statements on the tables with the
-- constraints that SQLite checks (Tables), opening and joining conflicts (Conflicts) and
-- resolving them (Resolve). A method is a function from the store to a result and the store;
-- what it wrote before it raised stays written, and the transaction of the caller decides about
-- it. Tables are lists in the order of their key. str.casefold, the JSON check, the clock and
-- uuid4 are parameters (Ambient). The lists of conflicts and reviews, the registry of extracted
-- keys and the schema repair are not modelled. The other modules of that tree, as of Temporal
-- and Policy, are proofs and tests.
--
-- Temporal (enfold/temporal.py): tokens (Words), value updates (Updates), supersede (Supersede)
-- and row_matches_as_of (AsOf), on the same rows of facts. str.lower is a parameter.
-- fact_history and the migration of columns are not modelled.
--
-- Policy (enfold/policy.py, with the records of enfold/provenance.py): the vocabularies and run
-- scopes (Scopes), the grants of clients and what a connection gets of them (Grants), and the
-- evaluation of a write (Writes). What the regular expressions for credentials find in a text is
-- a parameter.
--
-- EmbeddingJobs (enfold/embedding_jobs.py): the tables of jobs and of vectors with their keys
-- (Rows), EmbeddingOutbox with its enqueueing, backfill and safety of activation (Outbox),
-- EmbeddingJobProcessor with claim (Processor), and with commit, failure and process_one
-- (Commit). Instants are microseconds. SHA-256, the number of components that bytes hold, and
-- the model are parameters; the model is called between two transactions, so that the facts
-- before and after it are given apart. The thread that supervises the worker and the ages of
-- jobs in a health report are not modelled.
--
-- WriteService (enfold/write_service.py): write and write_batch as they run (Write), with the
-- tables of the vault and the inputs of the service (Rows), the statements on clients, sessions,
-- observations and provenance (Ledger) and on the log (Log), the checks before the transaction
-- (Typed), what it looks up before (Queries), the policy on what a write may replace and the
-- plan of a write (Plan), the writing of the fact into its slot (Slots, Carry) and what is done
-- without a slot: near duplicates, contradictions, supersession on request (Untyped,
-- Contradict). The state is a Vault: the store of facts, the outbox and the ledger. The writer
-- of facts, the search for near duplicates, the embedder of queries, hashes and encoders of JSON
-- are fields of Service; clocks and new identifiers are fields of Surroundings, one for each
-- write. A transaction gives the vault back where its body raises. What a caller runs before the
-- commit of a batch is a method on the vault. That identifiers are positive (FactWriteResult) is
-- not checked. The columns of a session are those of provenance.py.
--
-- The other modules of these two trees are proofs: WellFormed, Preserved and Reachable are on
-- the keys and leases of the outbox; Due, Claimed, Fence, Stored, Coverage, DeadLetters and
-- GivenUp on what its transactions achieve and leave alone; Frames, Parts and Sessions are on
-- what each part of a write keeps; Trail, Traced and Histories on the way from the log to
-- provenance and observations; Replay, Retry and Reused are on the idempotency key; Atomic,
-- Effects and Attributed on what a write leaves; Guarded on what it may replace. Histories of
-- several workers are sequences of steps, each of which is one transaction.
--
-- The parts meet in the tables: the policy admits a write, decide_state_write reads the facts
-- and says what the write does to its slot, the conflict operations and supersede carry it out,
-- and the outbox gets a job for the new fact, all in the transaction of the write service.
-- Retrieval, the daemon and its protocol, erasure, projections, the extraction by models, and
-- the command-line tools are not modelled. Exec, Keeps and Ensures are the shared notation for
-- methods, the properties that they keep, and what they leave where they return; Base has the
-- lemmas on lists, options and numbers.
mod Base
pub mod Exec
pub mod Keeps
pub mod Ensures
pub mod Timestamps
pub mod FactStore
pub mod EmbeddingJobs
pub mod ExtractQueue
pub mod StateSlots
pub mod Temporal
pub mod Policy
pub mod WriteService
