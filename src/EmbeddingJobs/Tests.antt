-- ===== src/EmbeddingJobs/Tests.antt =====
-- Runs of the outbox and of two workers on small data.
use Prim.Native.String
use holographic_plus.Base.{
  ◌≡◌, ◌↔◌, refl, String, true, none, some, List, [], ◌∷◌, concat, find, count, select,
  update_where, str_eq, ok, raise, runtime_error,
}
use holographic_plus.Exec.{transaction, ◌>>=◌}
use holographic_plus.FactStore.{Fact}
use holographic_plus.EmbeddingJobs.Rows.{
  Job, Outbox, EmbeddingSpec, no_jobs, has_job_id, has_job_key, is_of_spec, is_waiting, is_leased,
  is_completed, is_dead_letter, dead_letter, has_vector_key, is_vector_of, next_job_id,
  is_embeddable,
}
use holographic_plus.EmbeddingJobs.Outbox.{
  enqueue_backfill, enqueue_in_transaction, upsert_job, upserted, needs_vector, is_renewable,
  backfill_jobs, backfill_changed, activation_safe, uncovered_active, is_live_job,
}
use holographic_plus.EmbeddingJobs.Processor.{
  Worker, ClaimedEmbeddingJob, claim, update_jobs, is_exhausted, is_claimable, lease_job, is_held,
}
use holographic_plus.EmbeddingJobs.Commit.{
  settle_inactive, commit_prepared, fail, is_lease_valid, store_prepared, upsert_vector,
  failure_status, process_one, process_claimed,
}
use holographic_plus.EmbeddingJobs.WellFormed.{IsWellFormed}
use holographic_plus.EmbeddingJobs.Reachable.{
  start, next, backfilled, claimed, committed, reachable_outbox-IsWellFormed,
}
use holographic_plus.EmbeddingJobs.Claimed.{IsClaimed, claim-IsClaimed}
use holographic_plus.EmbeddingJobs.Fence.{stale_worker, claim-none_iff}
use holographic_plus.EmbeddingJobs.Coverage.{is_blocked, enqueue_backfill-safe}
use holographic_plus.EmbeddingJobs.GivenUp.{dead_letters_stay}

unfoldable program : Unit {0}
unfolding find count select update_where str_eq transaction ◌>>=◌ has_job_key is_of_spec is_waiting
    is_leased is_completed is_dead_letter has_vector_key is_vector_of next_job_id is_embeddable
    enqueue_backfill enqueue_in_transaction upsert_job upserted needs_vector is_renewable
    backfill_jobs backfill_changed activation_safe uncovered_active is_live_job claim
    settle_inactive commit_prepared fail update_jobs is_exhausted is_claimable lease_job is_held
    is_lease_valid store_prepared upsert_vector failure_status process_one process_claimed
    is_blocked
program = tt

abbrev sha : String → String
sha s = concat "sha:" s

abbrev spec : EmbeddingSpec
spec = record { document_identity = "model"; embedding_version = "v1"; dimensions = 3 }

abbrev worker : Worker
worker = record {
  spec = spec;
  sha256 = sha;
  dim_of = String.len;
  worker_id = "one";
  lease_seconds = 100;
  max_attempts = 2;
}

abbrev fact : Fact
fact = record {
  fact_id = 7;
  content = "tea";
  scope = "private";
  sensitivity = none;
  memory_kind = none;
  subject_key = none;
  predicate_key = none;
  object_value = none;
  source_authority = none;
  created_at = none;
  valid_from = none;
  valid_to = none;
  invalid_at = none;
  expired_at = none;
  superseded_by = none;
  conflict_group = none;
  correction_status = none;
  confidence = none;
}

abbrev facts : List Fact
facts = fact ∷ []

abbrev queued : Outbox
queued = (enqueue_backfill sha spec facts 1 no_jobs).1

abbrev leased : Outbox
leased = (claim worker 10 "t1" queued).1

abbrev retaken : Outbox
retaken = (claim worker 500_000_000 "t2" leased).1

abbrev first_claim : ClaimedEmbeddingJob
first_claim = record {
  job_id = 1;
  fact_id = 7;
  content_sha256 = "sha:tea";
  attempts = 1;
  lease_token = "t1";
}

abbrev second_claim : ClaimedEmbeddingJob
second_claim = record {
  job_id = 1;
  fact_id = 7;
  content_sha256 = "sha:tea";
  attempts = 2;
  lease_token = "t2";
}

abbrev stored : Outbox
stored = (commit_prepared worker second_claim "sha:tea" "vec" facts 510_000_000 retaken).1

-- Out of attempts, the job is given up by the next call for work.
abbrev buried : Outbox
buried = (claim worker 900_000_000 "t3" retaken).1

abbrev dead_job : Job
dead_job = record {
  job_id = 1;
  fact_id = 7;
  document_identity = "model";
  embedding_version = "v1";
  dimensions = 3;
  content_sha256 = "sha:tea";
  status = dead_letter;
  attempts = 2;
  available_at = 1;
  lease_token = none;
  lease_owner = none;
  lease_expires_at = none;
  last_error = some "attempts_exhausted";
  created_at = 1;
  updated_at = 900_000_000;
  completed_at = none;
}

claimed_first : claim worker 10 "t1" queued ≡ (ok (some first_claim), leased)
unfolding program
claimed_first = refl

claimed_second : claim worker 500_000_000 "t2" leased ≡ (ok (some second_claim), retaken)
unfolding program
claimed_second = refl

gives_up : find (has_job_id 1) buried.jobs ≡ some dead_job
unfolding program
gives_up = refl

leased-IsWellFormed : IsWellFormed leased
unfolding program
leased-IsWellFormed =
    reachable_outbox-IsWellFormed
      (next (next start (backfilled sha spec facts 1)) (claimed worker 10 "t1"))

buried-IsWellFormed : IsWellFormed buried
buried-IsWellFormed = reachable_outbox-IsWellFormed (
    next
      (next (next (next start (backfilled sha spec facts 1)) (claimed worker 10 "t1"))
        (claimed worker 500_000_000 "t2"))
      (claimed worker 900_000_000 "t3"))

reachable_outbox-IsWellFormed_example : IsWellFormed stored
reachable_outbox-IsWellFormed_example = reachable_outbox-IsWellFormed (
    next
      (next (next (next start (backfilled sha spec facts 1)) (claimed worker 10 "t1"))
        (claimed worker 500_000_000 "t2"))
      (committed worker second_claim "sha:tea" "vec" facts 510_000_000))

claim-IsClaimed_example : IsClaimed worker 500_000_000 "t2" leased retaken second_claim
claim-IsClaimed_example = claim-IsClaimed worker 500_000_000 "t2" leased-IsWellFormed claimed_second

stale_worker_example :
    (settle_inactive worker first_claim facts 510_000_000 retaken ≡ (raise runtime_error, retaken))
    × (commit_prepared worker first_claim "sha:tea" "old" facts 510_000_000 retaken
        ≡ (raise runtime_error, retaken))
    × (fail worker first_claim "Timeout" 510_000_000 retaken ≡ (raise runtime_error, retaken))
unfolding program
stale_worker_example =
    stale_worker {o = leased} {o' = retaken} {k = second_claim} worker 500_000_000 "t2" worker
      first_claim "sha:tea" "old" "Timeout" facts 510_000_000 leased-IsWellFormed claimed_second
      refl refl

claim-none_iff_example :
    ((claim worker 20 "t2" leased).0 ≡ ok none) ↔ (count (is_claimable worker 20) leased.jobs ≡ 0)
claim-none_iff_example = claim-none_iff worker 20 "t2" leased

enqueue_backfill-safe_example :
    activation_safe sha spec facts (enqueue_backfill sha spec facts 1 no_jobs).1 ≡ true
unfolding program
enqueue_backfill-safe_example = enqueue_backfill-safe sha spec facts 1 no_jobs refl

dead_letters_stay_example :
    find (has_job_id 1) (enqueue_backfill sha spec facts 950 buried).1.jobs ≡ some dead_job
dead_letters_stay_example =
    dead_letters_stay 1 buried-IsWellFormed (backfilled sha spec facts 950) gives_up refl
