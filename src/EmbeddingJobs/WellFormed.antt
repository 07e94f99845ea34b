-- ===== src/EmbeddingJobs/WellFormed.antt =====
-- The invariant of the outbox: its keys, its leases and the keys of its vectors; and the rules by
-- which statements keep it.
use holographic_plus.Base.{
  ℕ, ◌≤◌, ◌≡◌, refl, ap, String, Bool, false, ◌||◌, is_none, is_some, if◌then◌else◌, count, any,
  update_where, count-update-le, count-update-eq, count-append, count_of_not-any, arith, ◌==◌, List,
  [], ◌∷◌, ◌++◌, str_eq_iff,
}
use holographic_plus.Keeps.{Keeps}
use holographic_plus.EmbeddingJobs.Rows.{
  Job, Outbox, is_leased, has_job_id, has_job_key, has_vector_key, next_job_id, no_jobs,
}
use holographic_plus.EmbeddingJobs.Processor.{update_jobs}

-- A processing job has a token and a deadline; any other job has neither.
unfoldable pub breaks_lease : Job → Bool
unfolding is_leased
breaks_lease j =
    if is_leased j.status
    then is_none j.lease_token || is_none j.lease_expires_at
    else is_some j.lease_token || is_some j.lease_expires_at

pub record IsWellFormed (o : Outbox) : Type 0 where
  pub ids_unique : (i : ℕ) → count (has_job_id i) o.jobs ≤ 1
  pub keys_unique : (i : ℕ) (identity : String) → count (has_job_key i identity) o.jobs ≤ 1
  pub leases_kept : count breaks_lease o.jobs ≡ 0
  pub vectors_unique :
      (i : ℕ) (identity : String) → count (has_vector_key i identity) o.embeddings ≤ 1

pub no_jobs-IsWellFormed : IsWellFormed no_jobs
unfolding count
no_jobs-IsWellFormed = record {
  ids_unique = λ i. omega arith;
  keys_unique = λ i identity. omega arith;
  leases_kept = refl;
  vectors_unique = λ i identity. omega arith;
}

-- The next key is above every key in use.
pub next_job_id-fresh :
    (jobs : List Job) (i : ℕ) → next_job_id jobs ≤ i → count (has_job_id i) jobs ≡ 0
unfolding next_job_id count
next_job_id-fresh [] i h = refl
next_job_id-fresh (j ∷ js) i h = ground (arith, next_job_id-fresh js i)

-- An update keeps the invariant if it keeps the keys and writes proper leases.
pub record IsOrderly (f : Job → Job) : Type 0 where
  pub same_id : (j : Job) → (f j).job_id ≡ j.job_id
  pub same_fact : (j : Job) → (f j).fact_id ≡ j.fact_id
  pub same_identity : (j : Job) → (f j).document_identity ≡ j.document_identity
  pub lease_kept : (j : Job) → breaks_lease (f j) ≡ false

pub update_where-IsWellFormed :
    {o : Outbox} (p : Job → Bool) (f : Job → Job)
    → IsOrderly f
    → IsWellFormed o
    → IsWellFormed (record o { jobs = update_where p f o.jobs })
unfolding has_job_key
update_where-IsWellFormed {o} p f orderly w = record {
  ids_unique = λ i. omega (
    arith,
    count-update-eq (has_job_id i) p f o.jobs (λ j c. ap (λ k. k == i) (orderly.same_id j)),
    w.ids_unique i,
  );
  keys_unique = λ i identity. omega (
    arith,
    count-update-eq (has_job_key i identity) p f o.jobs
        (λ j c. rw (orderly.same_fact j, orderly.same_identity j)),
    w.keys_unique i identity,
  );
  leases_kept = omega (
    arith,
    count-update-le breaks_lease p f o.jobs (λ j c broken. cc (orderly.lease_kept j)),
    w.leases_kept,
  );
  vectors_unique = w.vectors_unique;
}

pub update_jobs-Keeps :
    (p : Job → Bool) (f : Job → Job) → IsOrderly f → Keeps IsWellFormed (update_jobs p f)
unfolding update_jobs
update_jobs-Keeps p f orderly = record { kept = λ o w. update_where-IsWellFormed p f orderly w }

-- A new job keeps the invariant where its key is free.
pub append-IsWellFormed :
    {o : Outbox} (j : Job)
    → j.job_id ≡ next_job_id o.jobs
    → any (has_job_key j.fact_id j.document_identity) o.jobs ≡ false
    → breaks_lease j ≡ false
    → IsWellFormed o
    → IsWellFormed (record o { jobs = o.jobs ++ j ∷ [] })
unfolding count has_job_key
append-IsWellFormed {o} j next free proper w = record {
  ids_unique = λ i. ground (
    arith,
    count-append (has_job_id i) o.jobs (j ∷ []),
    w.ids_unique i,
    next_job_id-fresh o.jobs i,
  );
  keys_unique = λ i identity. ground (
    arith,
    count-append (has_job_key i identity) o.jobs (j ∷ []),
    w.keys_unique i identity,
    count_of_not-any (has_job_key j.fact_id j.document_identity) o.jobs free,
    str_eq_iff j.document_identity identity,
    ap (λ (k : ℕ × String). count (has_job_key k.0 k.1) o.jobs)
        {x = (j.fact_id, j.document_identity)} {y = (i, identity)},
  );
  leases_kept = ground (arith, count-append breaks_lease o.jobs (j ∷ []), w.leases_kept);
  vectors_unique = w.vectors_unique;
}
