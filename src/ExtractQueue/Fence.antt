-- ===== src/ExtractQueue/Fence.antt =====
-- The lease as a fence: only the holder of the current claim changes its row.
use mathlib.Core.Path.{subst}
use holographic_plus.Base.{
  ℕ, ◌≡◌, ◌∙◌, str_eq_sym, String, Bool, true, false, not, ◌||◌, Option, none, some, List, ◌==◌,
  find, count, arith, count_by_find, update_none, delete_none, str_eq, str_eq_refl,
}
use holographic_plus.ExtractQueue.Rows.{Row, Queue, LeaseOwner, has_id, is_owned}
use holographic_plus.ExtractQueue.Payload.{Codec}
use holographic_plus.ExtractQueue.Claim.{Claim, ClaimRequest, claim_of, choose_owner, next_pending}
use holographic_plus.ExtractQueue.Finish.{
  Screen, holds_claim, mark_done, save_proposals, mark_failed, mark_quota_failed, release_claim,
}
use holographic_plus.ExtractQueue.WellFormed.{IsWellFormed}
use holographic_plus.ExtractQueue.Activated.{next_pending-IsWellFormed}
use holographic_plus.ExtractQueue.Leases.{leased, next_pending-IsClaimed}

-- The handle is not that of the claim: no handle, another owner, or another incarnation.
unfoldable pub is_other : Option LeaseOwner → Claim → Bool
is_other none k = true
is_other (some handle) k =
    not (str_eq handle.owner k.lease_owner.owner)
    || (elim handle.fence [ none ↦ false | some lease_until ↦ not (k.lease_until == lease_until) ])

-- Where a row is not owned through the handle, every report changes nothing and says so.
module _ {q : Queue} (row_id : ℕ) (handle : Option LeaseOwner)
    (unowned : count (is_owned row_id handle) q.rows ≡ 0) where
  mark_done_unowned : mark_done row_id handle q ≡ (q, false)
  unfolding mark_done
  mark_done_unowned = rw (unowned, delete_none (is_owned row_id handle) q.rows unowned)

  save_proposals_unowned :
      {P : Type 0} (screen : Screen P) (proposals : List P)
      → save_proposals screen row_id proposals handle q ≡ (q, false)
  unfolding save_proposals
  save_proposals_unowned screen proposals =
      rw (unowned, update_none (is_owned row_id handle) _ q.rows unowned)

  release_claim_unowned : release_claim row_id handle q ≡ (q, false)
  unfolding release_claim
  release_claim_unowned = rw (unowned, update_none (is_owned row_id handle) _ q.rows unowned)

-- The Python guard refuses the reports that the updates would refuse.
module _ {q : Queue} (row_id : ℕ) (handle : Option LeaseOwner) (row : Row)
    (there : find (has_id row_id) q.rows ≡ some row)
    (refused : holds_claim handle row ≡ false) where
  mark_failed_refused :
      (now : ℕ) (error : Option String) (max_attempts : ℕ)
      → mark_failed now row_id error max_attempts handle q ≡ (q, 0)
  unfolding mark_failed
  mark_failed_refused now error max_attempts = rw (there, mark_failed) (rw refused)

  mark_quota_failed_refused :
      (now : ℕ) (error : Option String) (not_before : ℕ)
      → mark_quota_failed now row_id error not_before handle q ≡ (q, false)
  unfolding mark_quota_failed
  mark_quota_failed_refused now error not_before = rw (there, mark_quota_failed) (rw refused)

owned-has_id :
    (row_id : ℕ) (handle : Option LeaseOwner) (r : Row)
    → is_owned row_id handle r ≡ true
    → has_id row_id r ≡ true
unfolding is_owned
owned-has_id row_id handle r h = ground arith

-- The leased row is not owned through another handle, and is through the claim's.
other-owned :
    (codec : Codec) (c : ClaimRequest) (row : Row) (row_id : ℕ) (handle : Option LeaseOwner)
    → is_other handle (claim_of codec (leased c row)) ≡ true
    → (is_owned row_id handle (leased c row) ≡ false) × (holds_claim handle (leased c row) ≡ false)
unfolding is_other is_owned holds_claim
other-owned codec c row row_id none h = (ground arith, ground arith)
other-owned codec c row row_id (some handle) h =
    let name : str_eq (choose_owner c.generated c.lease_owner) handle.owner
        ≡ str_eq handle.owner (choose_owner c.generated c.lease_owner) =
      str_eq_sym _ _ in
    (ground arith, ground arith)

own-owned :
    (codec : Codec) (c : ClaimRequest) (row : Row)
    → let k = claim_of codec (leased c row) in
      (is_owned row.id (some k.lease_owner) (leased c row) ≡ true)
      × (holds_claim (some k.lease_owner) (leased c row) ≡ true)
unfolding is_owned holds_claim
own-owned codec c row = ground (arith, str_eq_refl (choose_owner c.generated c.lease_owner))

-- After a claim on a well-formed queue, every report on its row through any other handle
-- changes nothing and says so: that of a caller whose lease was taken over, that of the same
-- owner in an earlier incarnation, and that of a caller with no handle.
pub stale_report :
    {q q' : Queue} {k : Claim} {P : Type 0} (codec : Codec) (c : ClaimRequest)
    (handle : Option LeaseOwner) (screen : Screen P) (proposals : List P) (now : ℕ)
    (error : Option String) (max_attempts not_before : ℕ)
    → IsWellFormed q
    → next_pending codec c q ≡ (q', some k)
    → is_other handle k ≡ true
    → (mark_done k.id handle q' ≡ (q', false))
      × (save_proposals screen k.id proposals handle q' ≡ (q', false))
      × (mark_failed now k.id error max_attempts handle q' ≡ (q', 0))
      × (mark_quota_failed now k.id error not_before handle q' ≡ (q', false))
      × (release_claim k.id handle q' ≡ (q', false))
stale_report {q} {q'} {k} codec c handle screen proposals now error max_attempts not_before w e
      other =
    let claimed = next_pending-IsClaimed codec c w e in
    let after : IsWellFormed q' =
      subst (λ (x : Queue × Option Claim). IsWellFormed x.0) e
        (next_pending-IsWellFormed codec c w) in
    let (free, refused) =
      other-owned codec c claimed.row k.id handle (rw claimed.result at other) in
    let unowned : count (is_owned k.id handle) q'.rows ≡ 0 =
      count_by_find (has_id k.id) (is_owned k.id handle) q'.rows (leased c claimed.row)
        (owned-has_id k.id handle) (after.ids_unique k.id) claimed.now_there
      ∙ rw free in
    (
      mark_done_unowned k.id handle unowned,
      save_proposals_unowned k.id handle unowned screen proposals,
      mark_failed_refused k.id handle _ claimed.now_there refused now error max_attempts,
      mark_quota_failed_refused k.id handle _ claimed.now_there refused now error not_before,
      release_claim_unowned k.id handle unowned,
    )
