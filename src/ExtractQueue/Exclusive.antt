-- ===== src/ExtractQueue/Exclusive.antt =====
-- A lease keeps its row from every other worker until it lapses.
use holographic_plus.Base.{
  ◌+◌, ◌<◌, ◌≡◌, ◌≢◌, sym, ap, subst, ◌∙◌, false, Option, some, find, arith,
}
use holographic_plus.ExtractQueue.Rows.{Row, Queue, has_id}
use holographic_plus.ExtractQueue.Payload.{Codec}
use holographic_plus.ExtractQueue.Claim.{Claim, ClaimRequest, next_pending, is_candidate}
use holographic_plus.ExtractQueue.WellFormed.{IsWellFormed}
use holographic_plus.ExtractQueue.Activated.{next_pending-IsWellFormed}
use holographic_plus.ExtractQueue.Leases.{leased, next_pending-IsClaimed}

not_candidate :
    (c c' : ClaimRequest) (row : Row)
    → c'.now < c.now + c.lease_seconds
    → is_candidate c' (leased c row) ≡ false
unfolding is_candidate
not_candidate c c' row early = ground arith

some_row_inj : {r s : Row} → some r ≡ some s → r ≡ s
some_row_inj h = cc h

-- On a well-formed queue, after a claim, the next claim at an instant before the deadline of
-- the first, by any worker and of any request, is of another row.
pub claims_are_exclusive :
    {q q' q'' : Queue} {k k' : Claim} (codec : Codec) (c c' : ClaimRequest)
    → IsWellFormed q
    → next_pending codec c q ≡ (q', some k)
    → next_pending codec c' q' ≡ (q'', some k')
    → c'.now < k.lease_until
    → k'.id ≢ k.id
claims_are_exclusive {q} {q'} {q''} {k} {k'} codec c c' w first second early same =
    let claimed = next_pending-IsClaimed codec c w first in
    let w' : IsWellFormed q' =
      subst (λ (x : Queue × Option Claim). IsWellFormed x.0) first
        (next_pending-IsWellFormed codec c w) in
    let again = next_pending-IsClaimed codec c' w' second in
    let until : k.lease_until ≡ c.now + c.lease_seconds =
      ap (λ (x : Claim). x.lease_until) claimed.result in
    let rows : again.row ≡ leased c claimed.row =
      some_row_inj
        (sym again.was_there ∙ ap (λ i. find (has_id i) q'.rows) same ∙ claimed.now_there) in
    let spent = not_candidate c c' claimed.row (rw (← until) early) in
    cc (again.was_candidate, rows, spent)
