-- ===== src/ExtractQueue/Reachable.antt =====
-- The queue as a transition system: any operation, with any arguments, at any time.
use holographic_plus.Base.{ℕ, String, Option, List}
use holographic_plus.ExtractQueue.Rows.{Queue, LeaseOwner, empty}
use holographic_plus.ExtractQueue.Payload.{Transcript, Codec}
use holographic_plus.ExtractQueue.Enqueue.{enqueue}
use holographic_plus.ExtractQueue.Claim.{ClaimRequest, next_pending}
use holographic_plus.ExtractQueue.Finish.{
  Screen, mark_done, save_proposals, mark_failed, mark_quota_failed, release_claim,
}
use holographic_plus.ExtractQueue.Revive.{revive_dead, revive_recent_quota_dead}
use holographic_plus.ExtractQueue.WellFormed.{IsWellFormed, empty-IsWellFormed}
use holographic_plus.ExtractQueue.Preserved.{
  enqueue-IsWellFormed, mark_done-IsWellFormed, save_proposals-IsWellFormed,
  mark_failed-IsWellFormed, mark_quota_failed-IsWellFormed, release_claim-IsWellFormed,
}
use holographic_plus.ExtractQueue.Activated.{
  next_pending-IsWellFormed, revive_dead-IsWellFormed, revive_recent-IsWellFormed,
}

module _ {P : Type 0} (codec : Codec) (screen : Screen P) where
  pub data Step (q : Queue) : Queue → Type 0 where
    enqueued : (now : ℕ) (transcript : Transcript) → Step q (enqueue codec now transcript q).0
    claimed : (c : ClaimRequest) → Step q (next_pending codec c q).0
    completed : (row_id : ℕ) (handle : Option LeaseOwner) → Step q (mark_done row_id handle q).0
    saved :
        (row_id : ℕ) (proposals : List P) (handle : Option LeaseOwner)
        → Step q (save_proposals screen row_id proposals handle q).0
    failed :
        (now row_id : ℕ) (error : Option String) (max_attempts : ℕ) (handle : Option LeaseOwner)
        → Step q (mark_failed now row_id error max_attempts handle q).0
    quota_failed :
        (now row_id : ℕ) (error : Option String) (not_before : ℕ) (handle : Option LeaseOwner)
        → Step q (mark_quota_failed now row_id error not_before handle q).0
    released : (row_id : ℕ) (handle : Option LeaseOwner) → Step q (release_claim row_id handle q).0
    revived : (ids : Option (List ℕ)) → Step q (revive_dead ids q).0
    recovered : (now : ℕ) → Step q (revive_recent_quota_dead now q).0

  pub data Reach : Queue → Type 0 where
    start : Reach empty
    next : {q q' : Queue} → Reach q → Step q q' → Reach q'

  pub Step-IsWellFormed : {q q' : Queue} → Step q q' → IsWellFormed q → IsWellFormed q'
  Step-IsWellFormed (enqueued now transcript) w = enqueue-IsWellFormed codec now transcript w
  Step-IsWellFormed (claimed c) w = next_pending-IsWellFormed codec c w
  Step-IsWellFormed (completed row_id handle) w = mark_done-IsWellFormed row_id handle w
  Step-IsWellFormed (saved row_id proposals handle) w =
      save_proposals-IsWellFormed screen row_id proposals handle w
  Step-IsWellFormed (failed now row_id error max_attempts handle) w =
      mark_failed-IsWellFormed now row_id error max_attempts handle w
  Step-IsWellFormed (quota_failed now row_id error not_before handle) w =
      mark_quota_failed-IsWellFormed now row_id error not_before handle w
  Step-IsWellFormed (released row_id handle) w = release_claim-IsWellFormed row_id handle w
  Step-IsWellFormed (revived ids) w = revive_dead-IsWellFormed ids w
  Step-IsWellFormed (recovered now) w = revive_recent-IsWellFormed now w

  -- Every queue that the operations reach from the empty one keeps its invariant: no id twice, no
  -- two active rows with one payload hash, and a lease on exactly the rows in process.
  pub Reach-IsWellFormed : {q : Queue} → Reach q → IsWellFormed q
  Reach-IsWellFormed start = empty-IsWellFormed
  Reach-IsWellFormed (next r step) = Step-IsWellFormed step (Reach-IsWellFormed r)
