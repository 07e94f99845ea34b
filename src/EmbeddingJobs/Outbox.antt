-- ===== src/EmbeddingJobs/Outbox.antt =====
-- `EmbeddingOutbox`: `enqueue_in_transaction`, `enqueue_backfill`, `health`. SHA-256 is a parameter.
use holographic_plus.Base.{
  ℕ, ◌+◌, String, Bool, true, not, ◌&&◌, Option, none, some, List, [], ◌∷◌, ◌++◌, ltb, ◌==◌, any,
  count, find, select, str_eq, update_where, if◌then◌else◌, Result, ok, raise, runtime_error,
}
use holographic_plus.Exec.{Exec}
use holographic_plus.FactStore.{Fact, has_fact_id}
use holographic_plus.EmbeddingJobs.Rows.{
  Job, Embedding, Outbox, EmbeddingSpec, pending, is_completed, is_dead_letter, has_job_key,
  is_of_spec, is_vector_of, next_job_id, is_embeddable,
}

abbrev pub new_job : EmbeddingSpec → ℕ → ℕ → String → ℕ → Job
new_job spec id fact_id digest now = record {
  job_id = id;
  fact_id = fact_id;
  document_identity = spec.document_identity;
  embedding_version = spec.embedding_version;
  dimensions = spec.dimensions;
  content_sha256 = digest;
  status = pending;
  attempts = 0;
  available_at = now;
  lease_token = none;
  lease_owner = none;
  lease_expires_at = none;
  last_error = none;
  created_at = now;
  updated_at = now;
  completed_at = none;
}

-- `DO UPDATE SET`
abbrev pub renew_job : EmbeddingSpec → String → ℕ → Job → Job
renew_job spec digest now j = record j {
  content_sha256 = digest;
  embedding_version = spec.embedding_version;
  dimensions = spec.dimensions;
  status = pending;
  attempts = 0;
  available_at = now;
  lease_token = none;
  lease_owner = none;
  lease_expires_at = none;
  last_error = none;
  completed_at = none;
  updated_at = now;
}

-- A completed job of this fact and model is done again; any other stays as it is.
unfoldable pub is_renewable : EmbeddingSpec → ℕ → Bool → Job → Bool
unfolding has_job_key is_completed
is_renewable spec fact_id allowed j =
    has_job_key fact_id spec.document_identity j && is_completed j.status && allowed

-- `INSERT … ON CONFLICT(fact_id, document_identity) DO UPDATE … WHERE status = 'completed' AND …`
unfoldable pub upsert_job : EmbeddingSpec → ℕ → String → ℕ → Bool → List Job → List Job
unfolding is_renewable next_job_id
upsert_job spec fact_id digest now allowed jobs =
    if any (has_job_key fact_id spec.document_identity) jobs
    then update_where (is_renewable spec fact_id allowed) (renew_job spec digest now) jobs
    else jobs ++ new_job spec (next_job_id jobs) fact_id digest now ∷ []

-- The row count of that statement.
unfoldable pub upserted : EmbeddingSpec → ℕ → List Job → ℕ
unfolding is_renewable
upserted spec fact_id jobs =
    if any (has_job_key fact_id spec.document_identity) jobs
    then count (is_renewable spec fact_id true) jobs
    else 1

abbrev pub job_id_of : Option Job → Result ℕ
job_id_of none = raise runtime_error
job_id_of (some j) = ok j.job_id

module _ (sha256 : String → String) (spec : EmbeddingSpec) where
  unfoldable pub enqueue_in_transaction : List Fact → ℕ → ℕ → Exec Outbox ℕ
  unfolding upsert_job is_vector_of
  enqueue_in_transaction facts now fact_id outbox = elim (find (has_fact_id fact_id) facts) [
    | none ↦ (raise runtime_error, outbox)
    | some f ↦
        let missing = not (any (is_vector_of spec fact_id) outbox.embeddings) in
        let jobs = upsert_job spec fact_id (sha256 f.content) now missing outbox.jobs in
        (
          job_id_of (find (has_job_key fact_id spec.document_identity) jobs),
          record outbox { jobs = jobs },
        )
  ]

  -- An active fact without this vector.
  unfoldable pub needs_vector : List Embedding → Fact → Bool
  unfolding is_embeddable is_vector_of
  needs_vector embeddings f = is_embeddable f && not (any (is_vector_of spec f.fact_id) embeddings)

  unfoldable pub backfill_jobs : ℕ → List Fact → List Job → List Job
  unfolding upsert_job
  backfill_jobs now [] jobs = jobs
  backfill_jobs now (f ∷ fs) jobs =
      backfill_jobs now fs (upsert_job spec f.fact_id (sha256 f.content) now true jobs)

  unfoldable pub backfill_changed : ℕ → List Fact → List Job → ℕ
  unfolding upsert_job upserted
  backfill_changed now [] jobs = 0
  backfill_changed now (f ∷ fs) jobs =
      (if ltb 0 (upserted spec f.fact_id jobs) then 1 else 0)
      + backfill_changed now fs (upsert_job spec f.fact_id (sha256 f.content) now true jobs)

  unfoldable pub enqueue_backfill : List Fact → ℕ → Exec Outbox ℕ
  unfolding needs_vector backfill_jobs backfill_changed
  enqueue_backfill facts now outbox =
      let wanting = select (needs_vector outbox.embeddings) facts in
      (
        ok (backfill_changed now wanting outbox.jobs),
        record outbox { jobs = backfill_jobs now wanting outbox.jobs },
      )

  -- A live job for this fact and model.
  unfoldable pub is_live_job : ℕ → Job → Bool
  unfolding is_of_spec is_completed is_dead_letter
  is_live_job fact_id j =
      j.fact_id == fact_id
      && is_of_spec spec j
      && not (is_completed j.status)
      && not (is_dead_letter j.status)

  unfoldable pub uncovered_active : List Fact → Outbox → ℕ
  unfolding needs_vector is_live_job
  uncovered_active facts outbox =
      count (λ f. needs_vector outbox.embeddings f && not (any (is_live_job f.fact_id) outbox.jobs))
        facts

  unfoldable pub activation_safe : List Fact → Outbox → Bool
  unfolding uncovered_active is_dead_letter
  activation_safe facts outbox =
      uncovered_active facts outbox == 0
      && count
          (λ (j : Job).
            str_eq j.document_identity spec.document_identity && is_dead_letter j.status)
          outbox.jobs
        == 0
