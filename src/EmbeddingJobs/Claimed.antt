-- ===== src/EmbeddingJobs/Claimed.antt =====
-- What a claim gives a worker.
use mathlib.Core.Option
use holographic_plus.Base.{
  ℕ, ◌+◌, ◌*◌, ◌≡◌, ◌≢◌, refl, ap, sym, ◌∙◌, List, [], ◌∷◌, String, true, false, if◌then◌else◌,
  Option, none, some, count, find, update_where, arith, Option-cases, Bool-cases, inl, inr, ok,
  find-update, find-sat, find_of_unique, count-update-eq,
}
use holographic_plus.Exec.{transaction-returns, ◌>>=◌}
use holographic_plus.EmbeddingJobs.Rows.{
  processing, dead_letter, Job, Outbox, has_job_id, is_waiting, is_leased,
}
use holographic_plus.EmbeddingJobs.Processor.{
  Worker, ClaimedEmbeddingJob, bury, take_job, claimed_job, is_exhausted, is_claimable, lease_job,
  claim,
}
use holographic_plus.EmbeddingJobs.Due.{
  IsDue, IsSpent, claimable-IsDue, exhausted-IsSpent, spent_exhausted,
}
use holographic_plus.EmbeddingJobs.WellFormed.{IsWellFormed}

-- The outbox after the jobs whose attempts are spent are given up, and after one is leased.
abbrev pub after_burial : Worker → ℕ → Outbox → Outbox
after_burial w now o = record o { jobs = update_where (is_exhausted w now) (bury now) o.jobs }

abbrev pub after_lease : Worker → ℕ → String → Job → Outbox → Outbox
after_lease w now token j o = record o {
  jobs = update_where (has_job_id j.job_id) (take_job w now token (j.attempts + 1)) o.jobs;
}

pub buried_not_claimable :
    (w : Worker) (now : ℕ) (j : Job) → is_claimable w now (bury now j) ≡ false
unfolding is_claimable is_waiting is_leased
buried_not_claimable w now j = ground arith

pub exhausted_not_claimable :
    (w : Worker) (now : ℕ) (j : Job) → is_exhausted w now j ≡ true → is_claimable w now j ≡ false
unfolding is_exhausted is_claimable
exhausted_not_claimable w now j h = ground arith

-- Giving up the spent jobs changes no job that can be claimed.
claimable_as_before :
    (w : Worker) (now : ℕ) (j x : Job)
    → (if is_exhausted w now x then bury now x else x) ≡ j
    → is_claimable w now j ≡ true
    → x ≡ j
claimable_as_before w now j x e h = elim (Bool-cases (is_exhausted w now x)) [
  | inr kept ↦ ground (arith, kept)
  | inl spent ↦
      let same : bury now x ≡ j = ground (arith, spent) in
      cc (buried_not_claimable w now x, ap (is_claimable w now) same)
]

-- What the worker may rely on.
pub record IsClaimed (w : Worker) (now : ℕ) (token : String) (o o' : Outbox)
    (k : ClaimedEmbeddingJob) : Type 0 where
  pub job : Job
  pub was_there : find (has_job_id k.job_id) o.jobs ≡ some job
  pub was_due : IsDue w now job
  pub was_first : find (is_claimable w now) o.jobs ≡ some job
  pub now_there :
      find (has_job_id k.job_id) o'.jobs
      ≡ some (record job {
        status = processing;
        attempts = job.attempts + 1;
        lease_token = some token;
        lease_owner = some w.worker_id;
        lease_expires_at = some (now + w.lease_seconds * 1_000_000);
        updated_at = now;
      })
  pub result : k ≡ record {
    job_id = job.job_id;
    fact_id = job.fact_id;
    content_sha256 = job.content_sha256;
    attempts = job.attempts + 1;
    lease_token = token;
  }
  pub spent_buried :
      (i : ℕ) (x : Job)
      → i ≢ k.job_id
      → find (has_job_id i) o.jobs ≡ some x
      → IsSpent w now x
      → find (has_job_id i) o'.jobs
        ≡ some (record x {
          status = dead_letter;
          lease_token = none;
          lease_owner = none;
          lease_expires_at = none;
          last_error = some "attempts_exhausted";
          updated_at = now;
        })
  pub others_kept :
      (i : ℕ) (x : Job)
      → i ≢ k.job_id
      → find (has_job_id i) o.jobs ≡ some x
      → ¬ IsSpent w now x
      → find (has_job_id i) o'.jobs ≡ some x
  pub vectors_kept : o'.embeddings ≡ o.embeddings

lease_job_lem :
    (w : Worker) (now : ℕ) (token : String) (found : Option Job) (o : Outbox)
    {k : ClaimedEmbeddingJob} {o' : Outbox}
    → lease_job w now token found o ≡ (ok (some k), o')
    → (j : Job) × (found ≡ some j) × (k ≡ claimed_job token j) × (o' ≡ after_lease w now token j o)
unfolding lease_job ◌>>=◌
lease_job_lem w now token none o h = cc
lease_job_lem w now token (some j) o h = (j, refl, cc, cc)

claim_lem :
    (w : Worker) (now : ℕ) (token : String) (o : Outbox) {k : ClaimedEmbeddingJob} {o' : Outbox}
    → claim w now token o ≡ (ok (some k), o')
    → (j : Job) × (find (is_claimable w now) (after_burial w now o).jobs ≡ some j)
      × (k ≡ claimed_job token j)
      × (o' ≡ after_lease w now token j (after_burial w now o))
unfolding claim ◌>>=◌
claim_lem w now token o h =
    lease_job_lem w now token _ (after_burial w now o) (transaction-returns _ o h)

was_there_lem :
    (w : Worker) (now : ℕ) (o : Outbox) (j : Job)
    → IsWellFormed o
    → find (is_claimable w now) (after_burial w now o).jobs ≡ some j
    → (find (has_job_id j.job_id) o.jobs ≡ some j)
      × (find (has_job_id j.job_id) (after_burial w now o).jobs ≡ some j)
was_there_lem w now o j held first =
    let claimable = find-sat (is_claimable w now) (after_burial w now o).jobs first in
    let same_count : count (has_job_id j.job_id) (after_burial w now o).jobs
        ≡ count (has_job_id j.job_id) o.jobs =
      count-update-eq (has_job_id j.job_id) (is_exhausted w now) (bury now) o.jobs (λ x c. refl) in
    let there : find (has_job_id j.job_id) (after_burial w now o).jobs ≡ some j =
      find_of_unique (is_claimable w now) (has_job_id j.job_id) _ first (ground arith)
        (omega (arith, same_count, held.ids_unique j.job_id)) in
    let updated =
      find-update (has_job_id j.job_id) (is_exhausted w now) (bury now) o.jobs (λ x. refl) in
    elim (Option-cases (find (has_job_id j.job_id) o.jobs)) [
      | inl absent ↦
          cc (ap (Option.map (λ x. if is_exhausted w now x then bury now x else x)) absent)
      | inr (x, found) ↦
          let mapped : some (if is_exhausted w now x then bury now x else x) ≡ some j =
            cc (ap (Option.map (λ x. if is_exhausted w now x then bury now x else x)) found) in
          (found ∙ ap some (claimable_as_before w now j x (cc mapped) claimable), there)
    ]

-- The first job that can be claimed is so before the spent ones are given up.
find_past_burial :
    (w : Worker) (now : ℕ) (jobs : List Job)
    → find (is_claimable w now) (update_where (is_exhausted w now) (bury now) jobs)
      ≡ find (is_claimable w now) jobs
unfolding find update_where
find_past_burial w now [] = refl
find_past_burial w now (j ∷ jobs) = ground (
  arith,
  find_past_burial w now jobs,
  buried_not_claimable w now j,
  exhausted_not_claimable w now j,
)

-- Another job, after the burial and the lease.
other_job :
    (w : Worker) (now : ℕ) (token : String) (j : Job) (o : Outbox) (i : ℕ) (x : Job)
    → i ≢ j.job_id
    → find (has_job_id i) o.jobs ≡ some x
    → find (has_job_id i) (after_lease w now token j (after_burial w now o)).jobs
      ≡ some (if is_exhausted w now x then bury now x else x)
other_job w now token j o i x other there =
    let id : x.job_id ≡ i = ground (arith, find-sat (has_job_id i) o.jobs there) in
    find-update (has_job_id i) (has_job_id j.job_id) (take_job w now token (j.attempts + 1))
      (after_burial w now o).jobs (λ y. refl)
    ∙ rw (find-update (has_job_id i) (is_exhausted w now) (bury now) o.jobs (λ y. refl), there)
        (apart w now token j x (λ e. other (sym id ∙ e)))
  where
    apart :
        (w : Worker) (now : ℕ) (token : String) (j x : Job)
        → x.job_id ≢ j.job_id
        → some (
            let y = if is_exhausted w now x then bury now x else x in
            if has_job_id j.job_id y then take_job w now token (j.attempts + 1) y else y)
          ≡ some (if is_exhausted w now x then bury now x else x)
    apart w now token j x other = elim (Bool-cases (is_exhausted w now x)) [
      | inl spent ↦ rw spent (ground arith)
      | inr kept ↦ rw kept (ground arith)
    ]

-- On a well-formed outbox, a claim that returns a job returns the first of the table that is due:
-- of the worker's model, with attempts left, and waiting past its date or leased past its deadline.
-- The job is then processed under the token of the claim, by this worker, for the seconds that it is
-- configured with, and has one attempt more. Every other job whose attempts are spent and that
-- nobody works on is a dead letter; the others, and all vectors, are as they were.
pub claim-IsClaimed :
    {o o' : Outbox} {k : ClaimedEmbeddingJob} (w : Worker) (now : ℕ) (token : String)
    → IsWellFormed o
    → claim w now token o ≡ (ok (some k), o')
    → IsClaimed w now token o o' k
claim-IsClaimed {o} {o'} {k} w now token held e =
    let (j, first, result, state) = claim_lem w now token o e in
    let (before, between) = was_there_lem w now o j held first in
    let claimable = find-sat (is_claimable w now) (after_burial w now o).jobs first in
    rw (result, state)
      (record {
        job = j;
        was_there = before;
        was_due = claimable-IsDue w now j claimable;
        was_first = sym (find_past_burial w now o.jobs) ∙ first;
        now_there = ground (
          arith,
          find-update (has_job_id j.job_id) (has_job_id j.job_id)
              (take_job w now token (j.attempts + 1)) (after_burial w now o).jobs (λ x. refl),
          between,
        );
        result = refl;
        spent_buried = λ i x other there spent.
            other_job w now token j o i x other there ∙ rw (spent_exhausted w now x spent) refl;
        others_kept = λ i x other there alive.
            other_job w now token j o i x other there ∙ (elim (Bool-cases (is_exhausted w now x)) [
              | inl spent ↦ absurd (alive (exhausted-IsSpent w now x spent))
              | inr kept ↦ rw kept refl
            ]);
        vectors_kept = refl;
      })
