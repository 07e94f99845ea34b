-- ===== src/EmbeddingJobs/Stored.antt =====
-- What a stored vector stands for.
use holographic_plus.Base.{
  ℕ, ◌≡◌, refl, String, true, some, List, find, any, update_where, arith, str_eq_refl, Option-cases,
  Bool-cases, inl, inr, find-update, find-sat, find-none, count_of_any, find-append_new,
}
use holographic_plus.FactStore.{Fact, has_fact_id}
use holographic_plus.EmbeddingJobs.Rows.{
  Job, Embedding, Outbox, EmbeddingSpec, has_job_id, has_vector_key, is_embeddable,
}
use holographic_plus.EmbeddingJobs.Processor.{Worker, ClaimedEmbeddingJob, finish_embedded}
use holographic_plus.EmbeddingJobs.Commit.{put_vector, is_lease_valid}

pub put_vector-found :
    (spec : EmbeddingSpec) (i : ℕ) (v : String) (es : List Embedding)
    → (e : Embedding) × (find (has_vector_key i spec.document_identity) (put_vector spec i v es)
        ≡ some e)
      × (e.embedding ≡ v)
      × (e.dim ≡ spec.dimensions)
unfolding has_vector_key
put_vector-found spec i v es =
    elim (Bool-cases (any (has_vector_key i spec.document_identity) es)) [
      | inr free ↦ rw free (
        _,
        find-append_new (has_vector_key i spec.document_identity) es _ free
            (ground (arith, str_eq_refl spec.document_identity)),
        refl,
        refl,
      )
      | inl there ↦
          rw there (elim (Option-cases (find (has_vector_key i spec.document_identity) es)) [
            | inl absent ↦ absurd (
                omega (
                  arith,
                  count_of_any _ es there,
                  find-none (has_vector_key i spec.document_identity) es absent,
                ))
            | inr (e, found) ↦ (
              record e { embedding = v; dim = spec.dimensions },
              ground (
                arith,
                find-update (has_vector_key i spec.document_identity)
                    (has_vector_key i spec.document_identity)
                    (λ e. record e { embedding = v; dim = spec.dimensions }) es (λ x. refl),
                find-sat (has_vector_key i spec.document_identity) es found,
                found,
              ),
              refl,
              refl,
            )
          ])
    ]

-- The outbox with the vector stored and the job done.
abbrev pub after_store : Worker → ClaimedEmbeddingJob → String → String → ℕ → Outbox → Outbox
after_store w job digest v now o = record o {
  jobs = update_where (has_job_id job.job_id) (finish_embedded digest now) o.jobs;
  embeddings = put_vector w.spec job.fact_id v o.embeddings;
}

-- What holds once a worker is told that it embedded a fact.
pub record IsStored (w : Worker) (job : ClaimedEmbeddingJob) (expected v : String)
    (facts : List Fact) (now : ℕ) (o o' : Outbox) : Type 0 where
  pub fact : Fact
  pub is_there : find (has_fact_id job.fact_id) facts ≡ some fact
  pub is_active : is_embeddable fact ≡ true
  pub is_fresh : w.sha256 fact.content ≡ expected
  pub vector : Embedding
  pub is_kept :
      find (has_vector_key job.fact_id w.spec.document_identity) o'.embeddings ≡ some vector
  pub is_given : vector.embedding ≡ v
  pub is_wide : vector.dim ≡ w.spec.dimensions
  pub row : Job
  pub was_held : is_lease_valid w job row ≡ true
  pub was_row : find (has_job_id job.job_id) o.jobs ≡ some row
  pub is_done : find (has_job_id job.job_id) o'.jobs ≡ some (finish_embedded expected now row)
