-- ===== src/EmbeddingJobs/Reachable.antt =====
-- The outbox as a transition system: any number of workers and of calls, in any order. What a
-- worker does after its claim is a step of its own, so that others may act between.
use holographic_plus.Base.{ℕ, String, List}
use holographic_plus.FactStore.{Fact}
use holographic_plus.EmbeddingJobs.Rows.{Outbox, EmbeddingSpec, no_jobs}
use holographic_plus.EmbeddingJobs.Outbox.{enqueue_in_transaction, enqueue_backfill}
use holographic_plus.EmbeddingJobs.Processor.{Worker, ClaimedEmbeddingJob, claim}
use holographic_plus.EmbeddingJobs.Commit.{settle_inactive, commit_prepared, fail}
use holographic_plus.EmbeddingJobs.WellFormed.{IsWellFormed, no_jobs-IsWellFormed}
use holographic_plus.EmbeddingJobs.Preserved.{
  enqueue_in_transaction-Keeps, enqueue_backfill-Keeps, claim-Keeps, settle_inactive-Keeps,
  commit_prepared-Keeps, fail-Keeps,
}

-- One transaction, with any arguments, over any facts, returning or raising.
pub data Step (o : Outbox) : Outbox → Type 0 where
  enqueued :
      (sha256 : String → String) (spec : EmbeddingSpec) (facts : List Fact) (now i : ℕ)
      → Step o (enqueue_in_transaction sha256 spec facts now i o).1
  backfilled :
      (sha256 : String → String) (spec : EmbeddingSpec) (facts : List Fact) (now : ℕ)
      → Step o (enqueue_backfill sha256 spec facts now o).1
  claimed : (w : Worker) (now : ℕ) (token : String) → Step o (claim w now token o).1
  settled :
      (w : Worker) (job : ClaimedEmbeddingJob) (facts : List Fact) (now : ℕ)
      → Step o (settle_inactive w job facts now o).1
  committed :
      (w : Worker) (job : ClaimedEmbeddingJob) (expected v : String) (facts : List Fact) (now : ℕ)
      → Step o (commit_prepared w job expected v facts now o).1
  failed :
      (w : Worker) (job : ClaimedEmbeddingJob) (error : String) (now : ℕ)
      → Step o (fail w job error now o).1

pub data Reach : Outbox → Type 0 where
  start : Reach no_jobs
  next : {o o' : Outbox} → Reach o → Step o o' → Reach o'

pub Step-IsWellFormed : {o o' : Outbox} → Step o o' → IsWellFormed o → IsWellFormed o'
Step-IsWellFormed {o} (enqueued sha256 spec facts now i) h =
    (enqueue_in_transaction-Keeps sha256 spec facts now i).kept o h
Step-IsWellFormed {o} (backfilled sha256 spec facts now) h =
    (enqueue_backfill-Keeps sha256 spec facts now).kept o h
Step-IsWellFormed {o} (claimed w now token) h = (claim-Keeps w now token).kept o h
Step-IsWellFormed {o} (settled w job facts now) h = (settle_inactive-Keeps w job facts now).kept o h
Step-IsWellFormed {o} (committed w job expected v facts now) h =
    (commit_prepared-Keeps w job expected v facts now).kept o h
Step-IsWellFormed {o} (failed w job error now) h = (fail-Keeps w job error now).kept o h

-- In every reachable outbox, job ids are unique, each fact has at most one job and one vector for
-- each model, and exactly the processing jobs have a lease token and a deadline.
pub reachable_outbox-IsWellFormed : {o : Outbox} → Reach o → IsWellFormed o
reachable_outbox-IsWellFormed start = no_jobs-IsWellFormed
reachable_outbox-IsWellFormed (next reach step) =
    Step-IsWellFormed step (reachable_outbox-IsWellFormed reach)
