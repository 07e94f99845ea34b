-- ===== src/EmbeddingJobs/Coverage.antt =====
-- What a backfill covers.
use holographic_plus.Base.{
  ℕ, ◌≤◌, ◌≡◌, refl, sym, ◌∙◌, String, Bool, true, false, not, ◌&&◌, if◌then◌else◌, List, [], ◌∷◌,
  count, any, select, update_where, arith, str_eq, str_eq_refl, Bool-cases, inl, inr, count-append,
  count-update-keep, count-update-le, count_of_any, count-select, count_of_none, any_of_count,
}
use holographic_plus.FactStore.{Fact}
use holographic_plus.EmbeddingJobs.Rows.{
  Job, Outbox, EmbeddingSpec, has_job_key, is_of_spec, is_completed, is_dead_letter, next_job_id,
}
use holographic_plus.EmbeddingJobs.Outbox.{
  new_job, renew_job, is_renewable, upsert_job, needs_vector, backfill_jobs, enqueue_backfill,
  is_live_job, uncovered_active, activation_safe,
}

count-update-into :
    {A : Type 0} (p q bad r : A → Bool) (f : A → A) (xs : List A)
    → ((x : A) → p x ≡ true → bad x ≡ false → q (if r x then f x else x) ≡ true)
    → count bad xs ≡ 0
    → count p xs ≤ count q (update_where r f xs)
unfolding count update_where
count-update-into p q bad r f [] h z = omega arith
count-update-into p q bad r f (x ∷ xs) h z = ground (arith, h x, count-update-into p q bad r f xs h)

module _ (sha256 : String → String) (spec : EmbeddingSpec) where
  -- A job of this model that no worker with this configuration will take: of another version or
  -- width, or given up.
  unfoldable pub is_blocked : Job → Bool
  unfolding is_of_spec is_dead_letter
  is_blocked j =
      str_eq j.document_identity spec.document_identity
      && not (is_of_spec spec j && not (is_dead_letter j.status))

  upsert_job-unblocked :
      (i : ℕ) (digest : String) (now : ℕ) (jobs : List Job)
      → count is_blocked jobs ≡ 0
      → count is_blocked (upsert_job spec i digest now true jobs) ≡ 0
  unfolding is_blocked upsert_job is_renewable has_job_key count
  upsert_job-unblocked i digest now jobs z =
      elim (Bool-cases (any (has_job_key i spec.document_identity) jobs)) [
        | inl there ↦ rw there (
            omega (
              arith,
              z,
              count-update-le is_blocked (is_renewable spec i true) (renew_job spec digest now) jobs
                  (λ j c. ground (arith, str_eq_refl spec.embedding_version)),
            ))
        | inr free ↦ rw free (
            ground (
              arith,
              z,
              count-append is_blocked jobs (new_job spec (next_job_id jobs) i digest now ∷ []),
              str_eq_refl spec.embedding_version,
              str_eq_refl spec.document_identity,
            ))
      ]

  -- A live job stays live.
  upsert_job-live :
      (k i : ℕ) (digest : String) (now : ℕ) (jobs : List Job)
      → count (is_live_job sha256 spec k) jobs
        ≤ count (is_live_job sha256 spec k) (upsert_job spec i digest now true jobs)
  unfolding is_live_job upsert_job is_renewable has_job_key is_of_spec is_completed is_dead_letter
      count
  upsert_job-live k i digest now jobs =
      elim (Bool-cases (any (has_job_key i spec.document_identity) jobs)) [
        | inl there ↦ rw there (
            count-update-keep (is_live_job sha256 spec k) (is_renewable spec i true)
              (renew_job spec digest now) jobs
              (λ j live.
                ground
                  (arith, str_eq_refl spec.embedding_version, str_eq_refl spec.document_identity)))
        | inr free ↦ rw free (
            omega (
              arith,
              count-append (is_live_job sha256 spec k) jobs
                  (new_job spec (next_job_id jobs) i digest now ∷ []),
            ))
      ]

  -- The statement leaves a live job for its fact.
  upsert_job-covers :
      (i : ℕ) (digest : String) (now : ℕ) (jobs : List Job)
      → count is_blocked jobs ≡ 0
      → 1 ≤ count (is_live_job sha256 spec i) (upsert_job spec i digest now true jobs)
  unfolding is_live_job upsert_job is_renewable has_job_key is_of_spec is_completed is_dead_letter
      is_blocked count
  upsert_job-covers i digest now jobs z =
      elim (Bool-cases (any (has_job_key i spec.document_identity) jobs)) [
        | inl there ↦ rw there (
            omega (
              arith,
              count_of_any (has_job_key i spec.document_identity) jobs there,
              count-update-into (has_job_key i spec.document_identity) (is_live_job sha256 spec i)
                  is_blocked (is_renewable spec i true) (renew_job spec digest now) jobs
                  (λ j key unblocked.
                    ground (
                      arith,
                      str_eq_refl spec.embedding_version,
                      str_eq_refl spec.document_identity,
                    ))
                  z,
            ))
        | inr free ↦ rw free (
            ground (
              arith,
              count-append (is_live_job sha256 spec i) jobs
                  (new_job spec (next_job_id jobs) i digest now ∷ []),
              str_eq_refl spec.embedding_version,
              str_eq_refl spec.document_identity,
            ))
      ]

  backfill_jobs-live :
      (now k : ℕ) (facts : List Fact) (jobs : List Job)
      → count (is_live_job sha256 spec k) jobs
        ≤ count (is_live_job sha256 spec k) (backfill_jobs sha256 spec now facts jobs)
  unfolding backfill_jobs
  backfill_jobs-live now k [] jobs = omega arith
  backfill_jobs-live now k (f ∷ fs) jobs = omega (
    arith,
    upsert_job-live k f.fact_id (sha256 f.content) now jobs,
    backfill_jobs-live now k fs (upsert_job spec f.fact_id (sha256 f.content) now true jobs),
  )

  backfill_jobs-unblocked :
      (now : ℕ) (facts : List Fact) (jobs : List Job)
      → count is_blocked jobs ≡ 0
      → count is_blocked (backfill_jobs sha256 spec now facts jobs) ≡ 0
  unfolding backfill_jobs
  backfill_jobs-unblocked now [] jobs z = z
  backfill_jobs-unblocked now (f ∷ fs) jobs z =
      backfill_jobs-unblocked now fs _
        (upsert_job-unblocked f.fact_id (sha256 f.content) now jobs z)

  backfill_jobs-covers :
      (now : ℕ) (facts : List Fact) (jobs : List Job)
      → count is_blocked jobs ≡ 0
      → count
          (λ (f : Fact).
            not
              (any (is_live_job sha256 spec f.fact_id) (backfill_jobs sha256 spec now facts jobs)))
          facts
        ≡ 0
  unfolding backfill_jobs count
  backfill_jobs-covers now [] jobs z = refl
  backfill_jobs-covers now (f ∷ fs) jobs z =
      let jobs' = upsert_job spec f.fact_id (sha256 f.content) now true jobs in
      let live : any (is_live_job sha256 spec f.fact_id) (backfill_jobs sha256 spec now fs jobs')
          ≡ true =
        any_of_count (is_live_job sha256 spec f.fact_id) (backfill_jobs sha256 spec now fs jobs') (
          omega (
            arith,
            upsert_job-covers f.fact_id (sha256 f.content) now jobs z,
            backfill_jobs-live now f.fact_id fs jobs',
          )) in
      ground (
        arith,
        live,
        backfill_jobs-covers now fs jobs'
            (upsert_job-unblocked f.fact_id (sha256 f.content) now jobs z),
      )

dead_blocked :
    (sha256 : String → String) (spec : EmbeddingSpec) (j : Job)
    → (str_eq j.document_identity spec.document_identity && is_dead_letter j.status) ≡ true
    → is_blocked sha256 spec j ≡ true
unfolding is_blocked
dead_blocked sha256 spec j h = ground arith

-- Where no job of the model is of another version or width or given up, a backfill leaves every
-- active fact with its vector or with a job that waits or is worked on, so that the model's search
-- may be switched on.
pub enqueue_backfill-safe :
    (sha256 : String → String) (spec : EmbeddingSpec) (facts : List Fact) (now : ℕ) (o : Outbox)
    → count (is_blocked sha256 spec) o.jobs ≡ 0
    → activation_safe sha256 spec facts (enqueue_backfill sha256 spec facts now o).1 ≡ true
unfolding enqueue_backfill activation_safe uncovered_active
enqueue_backfill-safe sha256 spec facts now o z =
    let wanting = select (needs_vector sha256 spec o.embeddings) facts in
    let jobs = backfill_jobs sha256 spec now wanting o.jobs in
    let covered : count
          (λ (f : Fact).
            needs_vector sha256 spec o.embeddings f
            && not (any (is_live_job sha256 spec f.fact_id) jobs))
          facts
        ≡ 0 =
      sym (
        count-select (λ (f : Fact). not (any (is_live_job sha256 spec f.fact_id) jobs))
          (needs_vector sha256 spec o.embeddings) facts)
      ∙ backfill_jobs-covers sha256 spec now wanting o.jobs z in
    let alive : count
          (λ (j : Job).
            str_eq j.document_identity spec.document_identity && is_dead_letter j.status)
          jobs
        ≡ 0 =
      count_of_none _ (is_blocked sha256 spec) jobs (dead_blocked sha256 spec)
        (backfill_jobs-unblocked sha256 spec now wanting o.jobs z) in
    ground (arith, covered, alive)
