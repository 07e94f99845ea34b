-- ===== src/EmbeddingJobs/Commit.antt =====
-- `EmbeddingJobProcessor`: `process_one` and the transactions that end a claim, `_settle_inactive`,
-- `_commit_prepared`, `_fail`. The model is called between two transactions, so that other workers
-- may act in between.
use holographic_plus.Base.{
  ℕ, ◌+◌, ◌*◌, ◌^◌, String, Bool, ◌&&◌, Option, none, some, List, [], ◌∷◌, ◌++◌, leb, ◌==◌, str_eq,
  any, update_where, min, if◌then◌else◌, ok, raise, runtime_error, embedding_error,
}
use holographic_plus.Exec.{Exec, pure, gets, check, transaction, ◌>>=◌, ◌>>◌}
use holographic_plus.FactStore.{Fact}
use holographic_plus.EmbeddingJobs.Rows.{
  Job, JobStatus, Embedding, Outbox, EmbeddingSpec, pending, dead_letter, has_job_id, is_of_spec,
  has_vector_key, is_embeddable,
}
use holographic_plus.EmbeddingJobs.Processor.{
  Worker, ClaimedEmbeddingJob, Outcome, requeued_active, skipped_inactive, skipped_stale,
  requeued_changed, embedded, failed, ProcessResult, unlease, update_jobs, claim, is_held,
  active_content, requeue, finish, finish_embedded, settle_with,
}

-- A job whose fact was not active when the worker looked.
unfoldable pub settle_inactive : Worker → ClaimedEmbeddingJob → List Fact → ℕ → Exec Outbox Outcome
unfolding update_jobs is_held is_embeddable
settle_inactive w job facts now = transaction (elim (active_content facts job.fact_id) [
  | some content ↦ settle_with job (requeue (w.sha256 content) now) requeued_active
  | none ↦ settle_with job (finish (some "skipped_inactive") now) skipped_inactive
])

abbrev pub put_vector : EmbeddingSpec → ℕ → String → List Embedding → List Embedding
put_vector spec fact_id vector embeddings =
    if any (has_vector_key fact_id spec.document_identity) embeddings
    then update_where (has_vector_key fact_id spec.document_identity)
        (λ e. record e { embedding = vector; dim = spec.dimensions }) embeddings
    else embeddings
      ++ record {
        fact_id = fact_id;
        embedding_identity = spec.document_identity;
        dim = spec.dimensions;
        embedding = vector;
      }
        ∷ []

-- `upsert_in_transaction` of the writer, without the index of vectors
unfoldable pub upsert_vector : Worker → ℕ → String → Exec Outbox (Unit {0})
unfolding has_vector_key
upsert_vector w fact_id vector outbox =
    if w.dim_of vector == w.spec.dimensions
    then (ok tt, record outbox { embeddings = put_vector w.spec fact_id vector outbox.embeddings })
    else (raise embedding_error, outbox)

unfoldable pub is_lease_valid : Worker → ClaimedEmbeddingJob → Job → Bool
unfolding is_held is_of_spec
is_lease_valid w job j = is_held job j && is_of_spec w.spec j

-- After the lease was found valid.
unfoldable pub store_prepared :
    Worker → ClaimedEmbeddingJob → String → String → Option String → ℕ → Exec Outbox Outcome
unfolding update_jobs upsert_vector
store_prepared w job expected vector none now = do
  changed ← update_jobs (has_job_id job.job_id) (finish (some "skipped_stale") now)
  pure skipped_stale
store_prepared w job expected vector (some content) now =
    if str_eq (w.sha256 content) expected
    then (do
      upsert_vector w job.fact_id vector
      changed ← update_jobs (has_job_id job.job_id) (finish_embedded (w.sha256 content) now)
      pure embedded)
    else (do
      changed ← update_jobs (has_job_id job.job_id) (requeue (w.sha256 content) now)
      pure requeued_changed)

unfoldable pub commit_prepared :
    Worker → ClaimedEmbeddingJob → String → String → List Fact → ℕ → Exec Outbox Outcome
unfolding is_lease_valid is_embeddable store_prepared
commit_prepared w job expected vector facts now = transaction (do
  valid ← gets (λ (o : Outbox). any (is_lease_valid w job) o.jobs)
  check valid runtime_error
  store_prepared w job expected vector (active_content facts job.fact_id) now)

unfoldable pub failure_status : Worker → ClaimedEmbeddingJob → JobStatus
failure_status w job = if leb w.max_attempts job.attempts then dead_letter else pending

-- `timedelta(seconds=min(300, 2 ** attempts))`, in microseconds
abbrev pub backoff : ℕ → ℕ
backoff attempts = min 300 (2 ^ attempts) * 1_000_000

abbrev pub fail_job : JobStatus → ℕ → String → ℕ → Job → Job
fail_job status available error now j = record (unlease j) {
  status = status;
  available_at = available;
  last_error = some error;
  updated_at = now;
}

unfoldable pub fail : Worker → ClaimedEmbeddingJob → String → ℕ → Exec Outbox Outcome
unfolding update_jobs is_held failure_status
fail w job error now = transaction (
    settle_with job (fail_job (failure_status w job) (now + backoff job.attempts) error now)
      (failed (failure_status w job)))

-- What a call of the model gives: a vector, or the name of its exception.
pub data Embedded : Type 0 where
  vector : String → Embedded
  exception : String → Embedded

-- The rest of `process_one`, once a job is claimed: `seen` are the facts as they are read before the
-- call of the model, `facts` as they are at the commit. A failure is dated `failed_at`, the caller's
-- date if it gave one; the other transactions read the clock again.
unfoldable pub process_claimed :
    Worker
    → (String → Embedded)
    → ClaimedEmbeddingJob
    → List Fact
    → List Fact
    → ℕ
    → ℕ
    → Exec Outbox Outcome
unfolding settle_inactive commit_prepared fail
process_claimed w embed job seen facts failed_at ended_at = elim (active_content seen job.fact_id) [
  | none ↦ settle_inactive w job facts ended_at
  | some content ↦ elim (embed content) [
    | vector v ↦ commit_prepared w job (w.sha256 content) v facts ended_at
    | exception name ↦ fail w job name failed_at
  ]
]

abbrev process_found :
    Worker
    → (String → Embedded)
    → Option ClaimedEmbeddingJob
    → List Fact
    → List Fact
    → ℕ
    → ℕ
    → Exec Outbox (Option ProcessResult)
process_found w embed none seen facts failed_at ended_at = pure none
process_found w embed (some job) seen facts failed_at ended_at = do
  outcome ← process_claimed w embed job seen facts failed_at ended_at
  pure (some (record { job_id = job.job_id; fact_id = job.fact_id; outcome = outcome }))

-- With no other worker in between.
unfoldable pub process_one :
    Worker
    → (String → Embedded)
    → String
    → List Fact
    → List Fact
    → ℕ
    → ℕ
    → ℕ
    → Exec Outbox (Option ProcessResult)
unfolding claim process_claimed
process_one w embed token seen facts claimed_at failed_at ended_at = do
  found ← claim w claimed_at token
  process_found w embed found seen facts failed_at ended_at
