-- ===== src/ExtractQueue/Tests.antt =====
-- Runs of the queue on small data.
use Prim.Native.String
use holographic_plus.Base.{
  ◌≡◌, ◌≢◌, refl, ◌↔◌, ◌≤◌, String, true, false, Option, none, some, [], ◌∷◌, concat, find, count,
  select, update_where, str_eq, codes, ok, arith,
}
use holographic_plus.ExtractQueue.Rows.{
  Row, Queue, LeaseOwner, pending, processing, empty, has_id, is_owned, age_exceeded, pending_count,
  dead_count, is_active, is_processing,
}
use holographic_plus.ExtractQueue.Payload.{Codec, text, check_turns, prepare, max_payload_bytes}
use holographic_plus.ExtractQueue.Enqueue.{enqueue, oldest}
use holographic_plus.ExtractQueue.Claim.{Claim, ClaimRequest, next_pending, is_candidate}
use holographic_plus.ExtractQueue.Finish.{
  Screen, mark_done, save_proposals, mark_failed, mark_quota_failed, release_claim, is_quota_error,
}
use holographic_plus.ExtractQueue.Revive.{revive_dead}
use holographic_plus.ExtractQueue.WellFormed.{IsWellFormed, empty-IsWellFormed}
use holographic_plus.ExtractQueue.Preserved.{enqueue-IsWellFormed}
use holographic_plus.ExtractQueue.Activated.{next_pending-IsWellFormed}
use holographic_plus.ExtractQueue.Leases.{IsClaimed, next_pending-IsClaimed, next_pending-none_iff}
use holographic_plus.ExtractQueue.Retry.{claimable, mark_failed_final, mark_quota_failed_waits}
use holographic_plus.ExtractQueue.Idempotent.{enqueue_twice, prepare-le}
use holographic_plus.ExtractQueue.Exclusive.{claims_are_exclusive}
use holographic_plus.ExtractQueue.Fence.{is_other, stale_report}
use holographic_plus.ExtractQueue.Reachable.{
  start, next, enqueued, claimed, failed, revived, Reach-IsWellFormed,
}

unfoldable program : Unit {0}
unfolding count find select update_where str_eq oldest enqueue next_pending prepare is_other
    mark_done save_proposals mark_failed mark_quota_failed release_claim revive_dead codes is_owned
    check_turns is_quota_error pending_count dead_count age_exceeded is_active is_processing
program = tt

abbrev codec : Codec
codec = record { sha256 = λ s. concat "sha:" s; json_turns = λ ts. "[…]" }

abbrev screen : Screen String
screen = record { credential_shaped = λ s. false; json = λ ps. "[]" }

abbrev queue : Queue
queue = record {
  rows =
      record {
        id = 1;
        payload = "hello";
        created_at = some 7;
        attempts = 0;
        last_error = none;
        status = pending;
        not_before = none;
        lease_owner = none;
        lease_until = none;
        payload_hash = some "sha:hello";
        proposal_json = none;
      }
      ∷ [];
  last_id = 1;
}

abbrev request : ClaimRequest
request = record {
  max_attempts = 5;
  exclude_ids = [];
  lease_owner = some "worker";
  lease_seconds = 100;
  generated = "thread";
  now = 1_000;
}

abbrev claim : Claim
claim = record {
  id = 1;
  payload = "hello";
  attempts = 0;
  lease_owner = record { owner = "worker"; fence = some 1_100 };
  lease_until = 1_100;
  proposal_json = none;
  role_structured = false;
}

abbrev leased_row : Row
leased_row = record {
  id = 1;
  payload = "hello";
  created_at = some 7;
  attempts = 0;
  last_error = none;
  status = processing;
  not_before = none;
  lease_owner = some "worker";
  lease_until = some 1_100;
  payload_hash = some "sha:hello";
  proposal_json = none;
}

abbrev leased_queue : Queue
leased_queue = record { rows = leased_row ∷ []; last_id = 1 }

-- A late report of the same worker, from a lease it held before.
abbrev late : Option LeaseOwner
late = some (record { owner = "worker"; fence = some 900 })

abbrev holder : Option LeaseOwner
holder = some claim.lease_owner

enqueued_hello : enqueue codec 7 (text "hello") empty ≡ (queue, ok 1)
unfolding program
enqueued_hello = refl

claimed_hello : next_pending codec request queue ≡ (leased_queue, some claim)
unfolding program
claimed_hello = refl

queue-IsWellFormed : IsWellFormed queue
unfolding program
queue-IsWellFormed = enqueue-IsWellFormed codec 7 (text "hello") empty-IsWellFormed

leased_queue-IsWellFormed : IsWellFormed leased_queue
unfolding program
leased_queue-IsWellFormed = next_pending-IsWellFormed codec request queue-IsWellFormed

Reach-IsWellFormed_example :
    IsWellFormed (revive_dead none (mark_failed 2_000 1 none 1 holder leased_queue).0).0
unfolding program
Reach-IsWellFormed_example = Reach-IsWellFormed codec screen (
    next
      (next (next (next start (enqueued 7 (text "hello"))) (claimed request))
        (failed 2_000 1 none 1 holder))
      (revived none))

stale_report_example :
    (mark_done 1 late leased_queue ≡ (leased_queue, false))
    × (save_proposals screen 1 [] late leased_queue ≡ (leased_queue, false))
    × (mark_failed 1_050 1 none 5 late leased_queue ≡ (leased_queue, 0))
    × (mark_quota_failed 1_050 1 none 9_000 late leased_queue ≡ (leased_queue, false))
    × (release_claim 1 late leased_queue ≡ (leased_queue, false))
unfolding program
stale_report_example =
    stale_report {q = queue} {q' = leased_queue} {k = claim} codec request late screen [] 1_050 none
      5 9_000 queue-IsWellFormed claimed_hello refl

next_pending-IsClaimed_example : IsClaimed codec request queue leased_queue claim
next_pending-IsClaimed_example =
    next_pending-IsClaimed codec request queue-IsWellFormed claimed_hello

next_pending-none_iff_example :
    ((next_pending codec request leased_queue).1 ≡ none)
    ↔ (count (is_candidate request) leased_queue.rows ≡ 0)
next_pending-none_iff_example = next_pending-none_iff codec request leased_queue-IsWellFormed

owned : is_owned 1 holder leased_row ≡ true
unfolding program
owned = refl

there : find (has_id 1) leased_queue.rows ≡ some leased_row
unfolding program
there = refl

abbrev later : ClaimRequest
later = record request { now = 1_000_000; max_attempts = 50 }

mark_failed_final_example : claimable 1 later (mark_failed 2_000 1 none 1 holder leased_queue).0 ≡ 0
mark_failed_final_example =
    mark_failed_final 1 holder leased_row 2_000 none 1 later leased_queue-IsWellFormed there owned
      (omega arith)

mark_quota_failed_waits_example :
    claimable 1 later (mark_quota_failed 2_000 1 none 9_000 holder leased_queue).0 ≡ 1
unfolding program
mark_quota_failed_waits_example =
    mark_quota_failed_waits 1 holder leased_row 2_000 none 9_000 later leased_queue-IsWellFormed
      there owned refl

enqueue_twice_example :
    let (q', result) = enqueue codec 7 (text "hello") empty in
    enqueue codec 8 (text "hello") q' ≡ (q', result)
enqueue_twice_example = enqueue_twice empty codec 7 8 (text "hello")

prepare-le_example : String.len "hello" ≤ max_payload_bytes
unfolding program
prepare-le_example =
    prepare-le codec (text "hello") {p = record { payload = "hello"; role_structured = false }} refl

-- A second row, which a second worker claims while the lease of the first runs.
abbrev two_rows : Queue
two_rows = (enqueue codec 8 (text "world") queue).0

abbrev second_claim : Claim
second_claim = record {
  id = 2;
  payload = "world";
  attempts = 0;
  lease_owner = record { owner = "other"; fence = some 1_150 };
  lease_until = 1_150;
  proposal_json = none;
  role_structured = false;
}

two_rows-IsWellFormed : IsWellFormed two_rows
two_rows-IsWellFormed = enqueue-IsWellFormed codec 8 (text "world") queue-IsWellFormed

abbrev second_request : ClaimRequest
second_request = record request { now = 1_050; lease_owner = some "other" }

abbrev once_leased : Queue
once_leased = (next_pending codec request two_rows).0

claims_are_exclusive_example : second_claim.id ≢ claim.id
unfolding program
claims_are_exclusive_example =
    claims_are_exclusive {q = two_rows} {q' = once_leased}
      {q'' = (next_pending codec second_request once_leased).0} {k = claim} {k' = second_claim}
      codec request second_request two_rows-IsWellFormed refl refl (omega arith)
