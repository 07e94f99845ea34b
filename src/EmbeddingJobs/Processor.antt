-- ===== src/EmbeddingJobs/Processor.antt =====
-- `EmbeddingJobProcessor`: `claim`, and what the transactions that end a claim are made of.
use holographic_plus.Base.{
  ℕ, ◌+◌, ◌*◌, String, Bool, false, ◌&&◌, ◌||◌, Option, none, some, List, leb, ltb, ◌==◌, is_none,
  text_is, count, find, update_where, if◌then◌else◌, ok, runtime_error,
}
use holographic_plus.Exec.{Exec, pure, gets, check, transaction, ◌>>=◌, ◌>>◌}
use holographic_plus.FactStore.{Fact, has_fact_id}
use holographic_plus.EmbeddingJobs.Rows.{
  Job, JobStatus, Outbox, EmbeddingSpec, pending, processing, completed, dead_letter, is_waiting,
  is_leased, has_job_id, is_of_spec, is_embeddable,
}

-- `dim_of` is the number of components that the bytes of a vector hold.
pub record Worker : Type 0 where
  pub spec : EmbeddingSpec
  pub sha256 : String → String
  pub dim_of : String → ℕ
  pub worker_id : String
  pub lease_seconds : ℕ
  pub max_attempts : ℕ

pub record ClaimedEmbeddingJob : Type 0 where
  pub job_id : ℕ
  pub fact_id : ℕ
  pub content_sha256 : String
  pub attempts : ℕ
  pub lease_token : String

pub data Outcome : Type 0 where
  requeued_active skipped_inactive skipped_stale requeued_changed embedded : Outcome
  failed : JobStatus → Outcome

pub record ProcessResult : Type 0 where
  pub job_id : ℕ
  pub fact_id : ℕ
  pub outcome : Outcome

-- `lease_expires_at <= ?`
abbrev pub expired : Option ℕ → ℕ → Bool
expired none now = false
expired (some t) now = leb t now

abbrev pub unlease : Job → Job
unlease j = record j { lease_token = none; lease_owner = none; lease_expires_at = none }

-- An UPDATE of the jobs, with its row count.
unfoldable pub update_jobs : (Job → Bool) → (Job → Job) → Exec Outbox ℕ
update_jobs p f outbox =
    (ok (count p outbox.jobs), record outbox { jobs = update_where p f outbox.jobs })

-- Its attempts are spent, and no worker has it.
unfoldable pub is_exhausted : Worker → ℕ → Job → Bool
unfolding is_of_spec is_waiting is_leased
is_exhausted w now j =
    is_of_spec w.spec j
    && leb w.max_attempts j.attempts
    && (is_waiting j.status
        || (is_leased j.status && (is_none j.lease_expires_at || expired j.lease_expires_at now)))

abbrev pub bury : ℕ → Job → Job
bury now j = record (unlease j) {
  status = dead_letter;
  last_error = some "attempts_exhausted";
  updated_at = now;
}

unfoldable pub is_claimable : Worker → ℕ → Job → Bool
unfolding is_of_spec is_waiting is_leased
is_claimable w now j =
    is_of_spec w.spec j
    && ltb j.attempts w.max_attempts
    && ((is_waiting j.status && leb j.available_at now)
        || (is_leased j.status && expired j.lease_expires_at now))

abbrev pub take_job : Worker → ℕ → String → ℕ → Job → Job
take_job w now token attempts j = record j {
  status = processing;
  attempts = attempts;
  lease_token = some token;
  lease_owner = some w.worker_id;
  lease_expires_at = some (now + w.lease_seconds * 1_000_000);
  updated_at = now;
}

abbrev pub claimed_job : String → Job → ClaimedEmbeddingJob
claimed_job token j = record {
  job_id = j.job_id;
  fact_id = j.fact_id;
  content_sha256 = j.content_sha256;
  attempts = j.attempts + 1;
  lease_token = token;
}

-- The lease of the job that the query finds.
unfoldable pub lease_job :
    Worker → ℕ → String → Option Job → Exec Outbox (Option ClaimedEmbeddingJob)
unfolding update_jobs
lease_job w now token none = pure none
lease_job w now token (some j) = do
  changed ← update_jobs (has_job_id j.job_id) (take_job w now token (j.attempts + 1))
  pure (some (claimed_job token j))

unfoldable pub claim : Worker → ℕ → String → Exec Outbox (Option ClaimedEmbeddingJob)
unfolding is_exhausted is_claimable lease_job
claim w now token = transaction (do
  buried ← update_jobs (is_exhausted w now) (bury now)
  found ← gets (λ (o : Outbox). find (is_claimable w now) o.jobs)
  lease_job w now token found)

-- `job_id = ? AND status = 'processing' AND lease_token = ?`
unfoldable pub is_held : ClaimedEmbeddingJob → Job → Bool
unfolding is_leased
is_held job j =
    has_job_id job.job_id j && is_leased j.status && text_is j.lease_token job.lease_token

-- The content of an active fact.
abbrev pub content_if_active : Option Fact → Option String
content_if_active none = none
content_if_active (some f) = if is_embeddable f then some f.content else none

abbrev pub active_content : List Fact → ℕ → Option String
active_content facts fact_id = content_if_active (find (has_fact_id fact_id) facts)

abbrev pub requeue : String → ℕ → Job → Job
requeue digest now j = record (unlease j) {
  status = pending;
  content_sha256 = digest;
  available_at = now;
  updated_at = now;
}

abbrev pub finish : Option String → ℕ → Job → Job
finish reason now j = record (unlease j) {
  status = completed;
  last_error = reason;
  completed_at = some now;
  updated_at = now;
}

abbrev pub finish_embedded : String → ℕ → Job → Job
finish_embedded digest now j = record (finish none now j) { content_sha256 = digest }

abbrev pub settle_with : ClaimedEmbeddingJob → (Job → Job) → Outcome → Exec Outbox Outcome
settle_with job f outcome = do
  changed ← update_jobs (is_held job) f
  check (changed == 1) runtime_error
  pure outcome
