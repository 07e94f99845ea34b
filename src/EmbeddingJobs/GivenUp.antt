-- ===== src/EmbeddingJobs/GivenUp.antt =====
-- A job that was given up stays as it is: no transaction touches it again.
use holographic_plus.Base.{
  ℕ, ◌+◌, ◌≤◌, ◌≡◌, refl, ap, String, false, Option, none, some, List, any, find, count, arith,
  Bool-cases, Option-cases, inl, inr, find-sat, find_of_unique, count-update-eq, select,
}
use holographic_plus.Exec.{transaction, ◌>>=◌}
use holographic_plus.Keeps.{Keeps, keeps_rules, kept_or_rolled_back-kept}
use holographic_plus.FactStore.{Fact, has_fact_id}
use holographic_plus.EmbeddingJobs.Rows.{
  Job, Outbox, EmbeddingSpec, dead_letter, is_dead_letter, has_job_id,
}
use holographic_plus.EmbeddingJobs.Outbox.{needs_vector, enqueue_in_transaction, enqueue_backfill}
use holographic_plus.EmbeddingJobs.Processor.{
  Worker, ClaimedEmbeddingJob, bury, take_job, update_jobs, is_exhausted, is_claimable, lease_job,
  claim, is_held, active_content,
}
use holographic_plus.EmbeddingJobs.Commit.{
  is_lease_valid, settle_inactive, store_prepared, commit_prepared, fail,
}
use holographic_plus.EmbeddingJobs.WellFormed.{IsWellFormed}
use holographic_plus.EmbeddingJobs.Claimed.{after_burial}
use holographic_plus.EmbeddingJobs.Reachable.{
  Step, enqueued, backfilled, claimed, settled, committed, failed,
}
use holographic_plus.EmbeddingJobs.DeadLetters.{
  find-update_apart, HasDead, update_jobs-KeepsDead, upsert_job-dead, backfill_jobs-dead, not_held,
  dead_not_held, dead_not_exhausted, claimable_alive, valid-keyed, upsert_vector-KeepsDead,
}

module _ (i : ℕ) (j : Job) where
  settle_inactive-KeepsDead :
      (w : Worker) (job : ClaimedEmbeddingJob) (facts : List Fact) (now : ℕ)
      → is_held job j ≡ false
      → Keeps (HasDead i j) (settle_inactive w job facts now)
  unfolding settle_inactive
  settle_inactive-KeepsDead w job facts now apart =
      elim (Option-cases (active_content facts job.fact_id)) [
        | inl inactive ↦
            rw (inactive, settle_inactive) (search (keeps_rules, update_jobs-KeepsDead) depth 12)
        | inr (content, active) ↦
            rw (active, settle_inactive) (search (keeps_rules, update_jobs-KeepsDead) depth 12)
      ]

  fail-KeepsDead :
      (w : Worker) (job : ClaimedEmbeddingJob) (error : String) (now : ℕ)
      → is_held job j ≡ false
      → Keeps (HasDead i j) (fail w job error now)
  unfolding fail
  fail-KeepsDead w job error now apart = search (keeps_rules, update_jobs-KeepsDead) depth 12

  store_prepared-KeepsDead :
      (w : Worker) (job : ClaimedEmbeddingJob) (expected v : String) (content : Option String)
      (now : ℕ)
      → has_job_id job.job_id j ≡ false
      → Keeps (HasDead i j) (store_prepared w job expected v content now)
  unfolding store_prepared
  store_prepared-KeepsDead w job expected v none now apart =
      search (keeps_rules, update_jobs-KeepsDead) depth 12
  store_prepared-KeepsDead w job expected v (some c) now apart =
      search (keeps_rules, update_jobs-KeepsDead, upsert_vector-KeepsDead) depth 14

  commit_prepared-dead :
      {o : Outbox} (w : Worker) (job : ClaimedEmbeddingJob) (expected v : String)
      (facts : List Fact) (now : ℕ)
      → IsWellFormed o
      → HasDead i j o
      → HasDead i j (commit_prepared w job expected v facts now o).1
  unfolding commit_prepared transaction ◌>>=◌
  commit_prepared-dead {o} w job expected v facts now held h =
      elim (Bool-cases (any (is_lease_valid w job) o.jobs)) [
        | inr lost ↦ rw lost h
        | inl valid ↦
            let apart : has_job_id job.job_id j ≡ false =
              not_held (is_lease_valid w job) job.job_id i j held h
                (λ x c. (valid-keyed w job x c).0) (λ x c. (valid-keyed w job x c).1) valid in
            let rest = store_prepared w job expected v (active_content facts job.fact_id) now in
            rw valid (
              kept_or_rolled_back-kept (HasDead i j) o (rest o) h (
                (store_prepared-KeepsDead w job expected v (active_content facts job.fact_id) now
                    apart).kept
                  o h))
      ]

  lease_job-dead :
      (w : Worker) (now : ℕ) (token : String) (found : Option Job) (o : Outbox)
      → ((k : ℕ) → count (has_job_id k) o.jobs ≤ 1)
      → find (is_claimable w now) o.jobs ≡ found
      → HasDead i j o
      → HasDead i j (lease_job w now token found o).1
  unfolding lease_job ◌>>=◌ update_jobs is_dead_letter
  lease_job-dead w now token none o unique e h = h
  lease_job-dead w now token (some k) o unique e h =
      let claimable = find-sat (is_claimable w now) o.jobs e in
      let it : find (has_job_id k.job_id) o.jobs ≡ some k =
        find_of_unique (is_claimable w now) (has_job_id k.job_id) o.jobs e (ground arith)
          (unique k.job_id) in
      let apart : has_job_id k.job_id j ≡ false = elim (Bool-cases (has_job_id k.job_id j)) [
        | inr apart ↦ apart
        | inl same ↦
            let key : i ≡ k.job_id = ground (arith, find-sat (has_job_id i) o.jobs h.0) in
            let one : some k ≡ some j = cc (ap (λ (n : ℕ). find (has_job_id n) o.jobs) key, h.0) in
            let eq : k ≡ j = cc one in
            absurd (
              ground (arith, claimable_alive w now k claimable, ap (λ (x : Job). x.status) eq, h.1))
      ] in
      (
        find-update_apart i (has_job_id k.job_id) (take_job w now token (k.attempts + 1)) o.jobs
            (λ x. refl) h.0 apart,
        h.1,
      )

  claim-dead :
      (o : Outbox) (w : Worker) (now : ℕ) (token : String)
      → IsWellFormed o
      → HasDead i j o
      → HasDead i j (claim w now token o).1
  unfolding claim transaction ◌>>=◌ update_jobs
  claim-dead o w now token held h =
      let o1 = after_burial w now o in
      let found = find (is_claimable w now) o1.jobs in
      let buried : HasDead i j o1 =
        (update_jobs-KeepsDead i j (is_exhausted w now) (bury now) (λ x. refl)
            (dead_not_exhausted w now j h.1)).kept
          o h in
      let unique : (k : ℕ) → count (has_job_id k) o1.jobs ≤ 1 = λ k. omega (
        arith,
        count-update-eq (has_job_id k) (is_exhausted w now) (bury now) o.jobs (λ x c. refl),
        held.ids_unique k,
      ) in
      kept_or_rolled_back-kept (HasDead i j) o (lease_job w now token found o1) h
        (lease_job-dead w now token found o1 unique refl buried)

  enqueue_in_transaction-dead :
      (o : Outbox) (sha256 : String → String) (spec : EmbeddingSpec) (facts : List Fact) (now k : ℕ)
      → HasDead i j o
      → HasDead i j (enqueue_in_transaction sha256 spec facts now k o).1
  unfolding enqueue_in_transaction
  enqueue_in_transaction-dead o sha256 spec facts now k h =
      elim (Option-cases (find (has_fact_id k) facts)) [
        | inl absent ↦ rw (absent, enqueue_in_transaction) h
        | inr (f, found) ↦
            rw (found, enqueue_in_transaction)
              (upsert_job-dead spec k (sha256 f.content) now _ o.jobs i h.0 h.1, h.1)
      ]

-- On a well-formed outbox, a job that was given up is, after any transaction of the outbox or of a
-- worker, still there and unchanged.
pub dead_letters_stay :
    {o o' : Outbox} {j : Job} (i : ℕ)
    → IsWellFormed o
    → Step o o'
    → find (has_job_id i) o.jobs ≡ some j
    → j.status ≡ dead_letter
    → find (has_job_id i) o'.jobs ≡ some j
unfolding enqueue_backfill
dead_letters_stay {o} {o'} {j} i held (enqueued sha256 spec facts now k) e dead =
    (enqueue_in_transaction-dead i j o sha256 spec facts now k (e, dead)).0
dead_letters_stay {o} {o'} {j} i held (backfilled sha256 spec facts now) e dead =
    backfill_jobs-dead sha256 spec now (select (needs_vector sha256 spec o.embeddings) facts) o.jobs
      i e dead
dead_letters_stay {o} {o'} {j} i held (claimed w now token) e dead =
    (claim-dead i j o w now token held (e, dead)).0
dead_letters_stay {o} {o'} {j} i held (settled w job facts now) e dead =
    ((settle_inactive-KeepsDead i j w job facts now (dead_not_held job j dead)).kept o (e, dead)).0
dead_letters_stay {o} {o'} {j} i held (committed w job expected v facts now) e dead =
    (commit_prepared-dead i j w job expected v facts now held (e, dead)).0
dead_letters_stay {o} {o'} {j} i held (failed w job error now) e dead =
    ((fail-KeepsDead i j w job error now (dead_not_held job j dead)).kept o (e, dead)).0
