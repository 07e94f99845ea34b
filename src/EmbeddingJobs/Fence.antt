-- ===== src/EmbeddingJobs/Fence.antt =====
-- A worker that lost its lease, and when there is work.
use holographic_plus.Base.{
  ℕ, ◌+◌, ◌≡◌, ◌↔◌, refl, ap, sym, subst, Result, ◌∙◌, String, true, false, Option, none, some,
  List, count, find, any, arith, str_eq, Option-cases, inl, inr, ok, raise, runtime_error,
  count_by_find, find-none, count-update-eq, count_of_none, count_of_any, Bool-cases, count_of_find,
}
use holographic_plus.Exec.{transaction, kept_or_rolled_back, ◌>>=◌}
use holographic_plus.FactStore.{Fact}
use holographic_plus.EmbeddingJobs.Rows.{Job, Outbox, has_job_id, is_leased}
use holographic_plus.EmbeddingJobs.Processor.{
  Worker, ClaimedEmbeddingJob, Outcome, bury, take_job, update_jobs, is_exhausted, is_claimable,
  lease_job, claim, is_held, settle_with, active_content,
}
use holographic_plus.EmbeddingJobs.Commit.{is_lease_valid, settle_inactive, commit_prepared, fail}
use holographic_plus.EmbeddingJobs.WellFormed.{IsWellFormed}
use holographic_plus.EmbeddingJobs.Claimed.{
  claim-IsClaimed, after_burial, exhausted_not_claimable, buried_not_claimable,
}
use holographic_plus.EmbeddingJobs.Preserved.{claim-Keeps}

held-has_job_id :
    (job : ClaimedEmbeddingJob) (j : Job) → is_held job j ≡ true → has_job_id job.job_id j ≡ true
unfolding is_held
held-has_job_id job j h = ground arith

-- Where no job is held under the claim, nothing that follows the claim is kept.
module _ (o : Outbox) (job : ClaimedEmbeddingJob) (lost : count (is_held job) o.jobs ≡ 0) where
  settle_with_lost :
      (f : Job → Job) (outcome : Outcome)
      → transaction (settle_with job f outcome) o ≡ (raise runtime_error, o)
  unfolding transaction ◌>>=◌ update_jobs
  settle_with_lost f outcome = rw lost refl

  settle_inactive_lost :
      (w : Worker) (facts : List Fact) (now : ℕ)
      → settle_inactive w job facts now o ≡ (raise runtime_error, o)
  unfolding settle_inactive
  settle_inactive_lost w facts now = elim (Option-cases (active_content facts job.fact_id)) [
    | inl inactive ↦ rw (inactive, settle_inactive) (settle_with_lost _ _)
    | inr (content, active) ↦ rw (active, settle_inactive) (settle_with_lost _ _)
  ]

  fail_lost :
      (w : Worker) (error : String) (now : ℕ) → fail w job error now o ≡ (raise runtime_error, o)
  unfolding fail
  fail_lost w error now = settle_with_lost _ _

  lease_lost : (w : Worker) → any (is_lease_valid w job) o.jobs ≡ false
  unfolding is_lease_valid
  lease_lost w = elim (Bool-cases (any (is_lease_valid w job) o.jobs)) [
    | inr h ↦ h
    | inl h ↦ absurd (
        omega (
          arith,
          count_of_any (is_lease_valid w job) o.jobs h,
          count_of_none (is_lease_valid w job) (is_held job) o.jobs (λ j valid. ground arith) lost,
        ))
  ]

  commit_prepared_lost :
      (w : Worker) (expected v : String) (facts : List Fact) (now : ℕ)
      → commit_prepared w job expected v facts now o ≡ (raise runtime_error, o)
  unfolding commit_prepared transaction ◌>>=◌
  commit_prepared_lost w expected v facts now = rw (lease_lost w) refl

-- On a well-formed outbox, once a job is claimed, each transaction of a worker that holds an
-- earlier claim of the same job, with another token, raises RuntimeError and leaves the outbox as
-- it was: no stale vector is stored, and the job is neither finished nor put back.
pub stale_worker :
    {o o' : Outbox} {k : ClaimedEmbeddingJob} (w : Worker) (now : ℕ) (token : String)
    (stale : Worker) (job : ClaimedEmbeddingJob) (expected v error : String) (facts : List Fact)
    (later : ℕ)
    → IsWellFormed o
    → claim w now token o ≡ (ok (some k), o')
    → job.job_id ≡ k.job_id
    → str_eq k.lease_token job.lease_token ≡ false
    → (settle_inactive stale job facts later o' ≡ (raise runtime_error, o'))
      × (commit_prepared stale job expected v facts later o' ≡ (raise runtime_error, o'))
      × (fail stale job error later o' ≡ (raise runtime_error, o'))
unfolding is_held is_leased
stale_worker {o} {o'} {k} w now token stale job expected v error facts later held e same other =
    let claimed = claim-IsClaimed w now token held e in
    let after : IsWellFormed o' = ap_kept w now token held e in
    let row : Job = take_job w now token (claimed.job.attempts + 1) claimed.job in
    let there : find (has_job_id job.job_id) o'.jobs ≡ some row = rw same claimed.now_there in
    let token_of : k.lease_token ≡ token =
      ap (λ (x : ClaimedEmbeddingJob). x.lease_token) claimed.result in
    let lost : count (is_held job) o'.jobs ≡ 0 =
      count_by_find (has_job_id job.job_id) (is_held job) o'.jobs row (held-has_job_id job)
        (after.ids_unique job.job_id) there
      ∙ ground (arith, other, token_of) in
    (
      settle_inactive_lost o' job lost stale facts later,
      commit_prepared_lost o' job lost stale expected v facts later,
      fail_lost o' job lost stale error later,
    )
  where
    ap_kept :
        {o o' : Outbox} {k : ClaimedEmbeddingJob} (w : Worker) (now : ℕ) (token : String)
        → IsWellFormed o
        → claim w now token o ≡ (ok (some k), o')
        → IsWellFormed o'
    ap_kept {o} w now token held e =
        subst (λ (x : Result (Option ClaimedEmbeddingJob) × Outbox). IsWellFormed x.1) e
          ((claim-Keeps w now token).kept o held)

claimable_after_burial :
    (w : Worker) (now : ℕ) (o : Outbox)
    → count (is_claimable w now) (after_burial w now o).jobs ≡ count (is_claimable w now) o.jobs
claimable_after_burial w now o =
    count-update-eq (is_claimable w now) (is_exhausted w now) (bury now) o.jobs
      (λ j spent. cc (buried_not_claimable w now j, exhausted_not_claimable w now j spent))

no_claim_iff :
    (w : Worker) (now : ℕ) (token : String) (o : Outbox) (found : Option Job)
    → find (is_claimable w now) (after_burial w now o).jobs ≡ found
    → ((kept_or_rolled_back o (lease_job w now token found (after_burial w now o))).0 ≡ ok none)
      ↔ (count (is_claimable w now) o.jobs ≡ 0)
unfolding lease_job ◌>>=◌ update_jobs
no_claim_iff w now token o none e =
    (λ _. sym (claimable_after_burial w now o) ∙ find-none _ _ e, λ _. refl)
no_claim_iff w now token o (some j) e =
    (λ h. cc, λ z. absurd (omega (arith, count_of_find _ _ e, claimable_after_burial w now o)))

-- A call for work returns no job exactly when no job is due: with attempts left, and waiting past
-- its date or leased past its deadline.
pub claim-none_iff :
    (w : Worker) (now : ℕ) (token : String) (o : Outbox)
    → ((claim w now token o).0 ≡ ok none) ↔ (count (is_claimable w now) o.jobs ≡ 0)
unfolding claim transaction ◌>>=◌ update_jobs
claim-none_iff w now token o = no_claim_iff w now token o _ refl
