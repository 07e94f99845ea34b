-- ===== src/EmbeddingJobs/DeadLetters.antt =====
-- What the statements of the outbox and of the workers do to a job that was given up.
use holographic_plus.Base.{
  ℕ, ◌≡◌, refl, ap, String, Bool, true, false, if◌then◌else◌, some, List, [], ◌∷◌, ◌++◌, any, find,
  count, update_where, arith, ◌==◌, Bool-cases, inl, inr, find-sat, count_of_any, count_by_find,
}
use holographic_plus.Keeps.{Keeps}
use holographic_plus.FactStore.{Fact}
use holographic_plus.EmbeddingJobs.Rows.{
  Job, Outbox, EmbeddingSpec, dead_letter, is_dead_letter, is_completed, is_leased, is_waiting,
  has_job_id, has_job_key,
}
use holographic_plus.EmbeddingJobs.Outbox.{is_renewable, upsert_job, backfill_jobs}
use holographic_plus.EmbeddingJobs.Processor.{
  Worker, ClaimedEmbeddingJob, update_jobs, is_exhausted, is_claimable, is_held,
}
use holographic_plus.EmbeddingJobs.Commit.{is_lease_valid, upsert_vector}
use holographic_plus.EmbeddingJobs.WellFormed.{IsWellFormed}

-- An update that leaves dead letters alone.
pub find-update_apart :
    (i : ℕ) (p : Job → Bool) (f : Job → Job) (jobs : List Job) {j : Job}
    → ((x : Job) → (f x).job_id ≡ x.job_id)
    → find (has_job_id i) jobs ≡ some j
    → p j ≡ false
    → find (has_job_id i) (update_where p f jobs) ≡ some j
unfolding find update_where
find-update_apart i p f [] same e apart = cc
find-update_apart i p f (x ∷ xs) {j} same e apart = elim (Bool-cases (has_job_id i x)) [
  | inl here ↦ let it : x ≡ j = ground (arith, here) in ground (arith, it, ap p it)
  | inr later ↦ ground (arith, same x, find-update_apart i p f xs {j = j} same)
]

find-append_found :
    (p : Job → Bool) (xs : List Job) (y : Job) {j : Job}
    → find p xs ≡ some j
    → find p (xs ++ y ∷ []) ≡ some j
unfolding find
find-append_found p [] y e = cc
find-append_found p (x ∷ xs) y {j} e = ground (arith, find-append_found p xs y {j = j})

-- `j` is in the outbox, given up.
abbrev pub HasDead : ℕ → Job → Outbox → Type 0
HasDead i j o = (find (has_job_id i) o.jobs ≡ some j) × (j.status ≡ dead_letter)

-- A statement whose condition this job does not meet.
pub update_jobs-KeepsDead :
    (i : ℕ) (j : Job) (p : Job → Bool) (f : Job → Job)
    → ((x : Job) → (f x).job_id ≡ x.job_id)
    → p j ≡ false
    → Keeps (HasDead i j) (update_jobs p f)
unfolding update_jobs
update_jobs-KeepsDead i j p f same apart = record {
  kept = λ o h. (find-update_apart i p f o.jobs same h.0 apart, h.1);
}

pub upsert_job-dead :
    (spec : EmbeddingSpec) (k : ℕ) (digest : String) (now : ℕ) (allowed : Bool) (jobs : List Job)
    (i : ℕ) {j : Job}
    → find (has_job_id i) jobs ≡ some j
    → j.status ≡ dead_letter
    → find (has_job_id i) (upsert_job spec k digest now allowed jobs) ≡ some j
unfolding upsert_job is_renewable is_completed
upsert_job-dead spec k digest now allowed jobs i {j} e dead =
    elim (Bool-cases (any (has_job_key k spec.document_identity) jobs)) [
      | inl there ↦ rw there (find-update_apart i _ _ jobs (λ x. refl) e (ground (arith, dead)))
      | inr free ↦ rw free (find-append_found _ jobs _ e)
    ]

pub backfill_jobs-dead :
    (sha256 : String → String) (spec : EmbeddingSpec) (now : ℕ) (facts : List Fact)
    (jobs : List Job) (i : ℕ) {j : Job}
    → find (has_job_id i) jobs ≡ some j
    → j.status ≡ dead_letter
    → find (has_job_id i) (backfill_jobs sha256 spec now facts jobs) ≡ some j
unfolding backfill_jobs
backfill_jobs-dead sha256 spec now [] jobs i e dead = e
backfill_jobs-dead sha256 spec now (f ∷ fs) jobs i e dead =
    backfill_jobs-dead sha256 spec now fs _ i
      (upsert_job-dead spec f.fact_id (sha256 f.content) now true jobs i e dead) dead

-- After the lease of a claim was found valid, the row with its id is that which is leased.
pub not_held :
    {o : Outbox} (test : Job → Bool) (k i : ℕ) (j : Job)
    → IsWellFormed o
    → HasDead i j o
    → ((x : Job) → test x ≡ true → has_job_id k x ≡ true)
    → ((x : Job) → test x ≡ true → is_dead_letter x.status ≡ false)
    → any test o.jobs ≡ true
    → has_job_id k j ≡ false
unfolding is_dead_letter
not_held {o} test k i j held (there, dead) keyed alive found = elim (Bool-cases (has_job_id k j)) [
  | inr apart ↦ apart
  | inl same ↦
      let key : i ≡ k = ground (arith, find-sat (has_job_id i) o.jobs there) in
      let one : count test o.jobs ≡ (if test j then 1 else 0) =
        count_by_find (has_job_id i) test o.jobs j (λ x t. rw key (keyed x t)) (held.ids_unique i)
          there in
      absurd (ground (arith, alive j, dead, count_of_any test o.jobs found))
]

pub dead_not_held :
    (job : ClaimedEmbeddingJob) (j : Job) → j.status ≡ dead_letter → is_held job j ≡ false
unfolding is_held is_leased
dead_not_held job j dead = ground (arith, dead)

pub dead_not_exhausted :
    (w : Worker) (now : ℕ) (j : Job) → j.status ≡ dead_letter → is_exhausted w now j ≡ false
unfolding is_exhausted is_leased is_waiting
dead_not_exhausted w now j dead = ground (arith, dead)

pub claimable_alive :
    (w : Worker) (now : ℕ) (j : Job) → is_claimable w now j ≡ true → is_dead_letter j.status ≡ false
unfolding is_claimable is_leased is_waiting is_dead_letter
claimable_alive w now j h = ground arith

pub valid-keyed :
    (w : Worker) (job : ClaimedEmbeddingJob) (j : Job)
    → is_lease_valid w job j ≡ true
    → (has_job_id job.job_id j ≡ true) × (is_dead_letter j.status ≡ false)
unfolding is_lease_valid is_held is_leased is_dead_letter
valid-keyed w job j h = (ground arith, ground arith)

pub upsert_vector-KeepsDead :
    (i : ℕ) (j : Job) (w : Worker) (k : ℕ) (v : String) → Keeps (HasDead i j) (upsert_vector w k v)
unfolding upsert_vector
upsert_vector-KeepsDead i j w k v = record {
  kept = λ o h. elim (Bool-cases (w.dim_of v == w.spec.dimensions)) [
    | inl c ↦ rw c h
    | inr c ↦ rw c h
  ];
}
