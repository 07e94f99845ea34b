-- ===== src/ExtractQueue/Leases.antt =====
-- What a claim gives: the oldest row that is due, leased to the caller, and to nobody else.
use mathlib.Core.Option
use holographic_plus.Base.{
  ℕ, ◌+◌, ◌≡◌, ◌↔◌, refl, ap, Bool, true, ◌&&◌, Option, none, some, ltb, find, count, update_where,
  if◌then◌else◌, arith, Option-cases, inl, inr, find-update, count_by_find, find-sat,
}
use holographic_plus.ExtractQueue.Rows.{Row, Queue, has_id}
use holographic_plus.ExtractQueue.Payload.{Codec}
use holographic_plus.ExtractQueue.Enqueue.{oldest}
use holographic_plus.ExtractQueue.Claim.{
  Claim, ClaimRequest, is_due, choose_owner, lease, claim_of, is_candidate, take_lease,
  next_pending,
}
use holographic_plus.ExtractQueue.Oldest.{
  count_of_oldest, oldest-none, oldest-sat, oldest-least, oldest-find,
}
use holographic_plus.ExtractQueue.WellFormed.{IsWellFormed}

-- The row that a call leases, as it becomes.
abbrev pub leased : ClaimRequest → Row → Row
leased c r = lease (choose_owner c.generated c.lease_owner) (c.now + c.lease_seconds) r

-- The state after a call that leases the row with this id.
abbrev pub with_lease : ClaimRequest → ℕ → Queue → Queue
with_lease c row_id q = record q {
  rows = update_where (λ r. has_id row_id r && is_due c.max_attempts c.now r) (leased c) q.rows;
}

candidate_due :
    (c : ClaimRequest) (r : Row) → is_candidate c r ≡ true → is_due c.max_attempts c.now r ≡ true
unfolding is_candidate
candidate_due c r h = ground arith

find-with_lease :
    (q : Queue) (c : ClaimRequest) (r : Row)
    → is_due c.max_attempts c.now r ≡ true
    → find (has_id r.id) q.rows ≡ some r
    → find (has_id r.id) (with_lease c r.id q).rows ≡ some (leased c r)
find-with_lease q c r due there =
    let updated : find (has_id r.id) (with_lease c r.id q).rows
        ≡ Option.map (λ x. if has_id r.id x && is_due c.max_attempts c.now x then leased c x else x)
            (find (has_id r.id) q.rows) =
      find-update (has_id r.id) _ (leased c) q.rows (λ x. refl) in
    ground (arith, find-sat (has_id r.id) q.rows there)

take_lease_lem :
    {q : Queue} (codec : Codec) (c : ClaimRequest) (r : Row)
    → IsWellFormed q
    → is_due c.max_attempts c.now r ≡ true
    → find (has_id r.id) q.rows ≡ some r
    → take_lease codec c r.id q ≡ (with_lease c r.id q, some (claim_of codec (leased c r)))
unfolding take_lease
take_lease_lem {q} codec c r w due there =
    let claimable : Row → Bool = λ x. has_id r.id x && is_due c.max_attempts c.now x in
    let one : count claimable q.rows ≡ (if claimable r then 1 else 0) =
      count_by_find (has_id r.id) claimable q.rows r (λ x h. ground arith) (w.ids_unique r.id)
        there in
    ground (arith, find-sat (has_id r.id) q.rows there, find-with_lease q c r due there)

-- Where some row is due and not excluded, the call leases the one of the least id and returns it.
pub next_pending_lem :
    {q : Queue} (codec : Codec) (c : ClaimRequest) {r : Row}
    → IsWellFormed q
    → oldest (is_candidate c) q.rows ≡ some r
    → next_pending codec c q ≡ (with_lease c r.id q, some (claim_of codec (leased c r)))
unfolding next_pending
next_pending_lem {q} codec c {r} w first =
    rw (first, next_pending)
      (take_lease_lem codec c r w (candidate_due c r (oldest-sat (is_candidate c) q.rows first))
        (oldest-find (is_candidate c) q.rows w.ids_unique first))

pub next_pending_drained :
    (q : Queue) (codec : Codec) (c : ClaimRequest)
    → oldest (is_candidate c) q.rows ≡ none
    → next_pending codec c q ≡ (q, none)
unfolding next_pending
next_pending_drained q codec c e = rw (e, next_pending)

-- What the caller of a successful claim may rely on.
pub record IsClaimed (codec : Codec) (c : ClaimRequest) (q q' : Queue) (k : Claim) : Type 0 where
  pub row : Row
  pub was_there : find (has_id k.id) q.rows ≡ some row
  pub was_candidate : is_candidate c row ≡ true
  pub was_oldest : count (λ s. is_candidate c s && ltb s.id k.id) q.rows ≡ 0
  pub state : q' ≡ with_lease c k.id q
  pub now_there : find (has_id k.id) q'.rows ≡ some (leased c row)
  pub result : k ≡ claim_of codec (leased c row)

-- On a well-formed queue, a call that returns a claim has found the row of the least id among
-- those that are due and not excluded, has leased that row to the caller and nothing else, and
-- returns the row as it now is.
pub next_pending-IsClaimed :
    {q q' : Queue} {k : Claim} (codec : Codec) (c : ClaimRequest)
    → IsWellFormed q
    → next_pending codec c q ≡ (q', some k)
    → IsClaimed codec c q q' k
next_pending-IsClaimed {q} {q'} {k} codec c w e =
    elim (Option-cases (oldest (is_candidate c) q.rows)) [
      | inl drained ↦ cc (next_pending_drained q codec c drained)
      | inr (r, first) ↦
          let there = oldest-find (is_candidate c) q.rows w.ids_unique first in
          let due = candidate_due c r (oldest-sat (is_candidate c) q.rows first) in
          let same : k ≡ claim_of codec (leased c r) = cc (next_pending_lem codec c w first) in
          let after : q' ≡ with_lease c r.id q = cc (next_pending_lem codec c w first) in
          rw (same, after)
            (record {
              row = r;
              was_there = there;
              was_candidate = oldest-sat (is_candidate c) q.rows first;
              was_oldest = oldest-least (is_candidate c) q.rows first;
              state = refl;
              now_there = find-with_lease q c r due there;
              result = refl;
            })
    ]

-- On a well-formed queue, a call returns nothing exactly when no row is due and not excluded.
pub next_pending-none_iff :
    {q : Queue} (codec : Codec) (c : ClaimRequest)
    → IsWellFormed q
    → ((next_pending codec c q).1 ≡ none) ↔ (count (is_candidate c) q.rows ≡ 0)
next_pending-none_iff {q} codec c w = elim (Option-cases (oldest (is_candidate c) q.rows)) [
  | inl e ↦ (
    λ _. oldest-none (is_candidate c) q.rows e,
    λ _. ap (λ (x : Queue × Option Claim). x.1) (next_pending_drained q codec c e),
  )
  | inr (r, e) ↦ (
    λ h. cc (h, ap (λ (x : Queue × Option Claim). x.1) (next_pending_lem codec c w e)),
    λ z. absurd (omega (arith, count_of_oldest (is_candidate c) q.rows e)),
  )
]
