-- ===== src/ExtractQueue/Activated.antt =====
-- The operations that put rows back to work keep the invariant: the claim and the revival.
use mathlib.Core.Option
use mathlib.Core.Bool.{false≢true}
use holographic_plus.Base.{
  ℕ, ◌+◌, ◌≤◌, ◌≡◌, refl, sym, ◌∙◌, text_is_eq, String, Bool, true, false, ◌&&◌, Option, some, List,
  any, find, count, update_where, arith, ◌==◌, Bool-cases, Option-cases, inl, inr, text_is,
  number_is, count_of_not-any, count-update-add, count-update-le,
}
use holographic_plus.ExtractQueue.Rows.{Row, Queue, is_active, has_id}
use holographic_plus.ExtractQueue.Payload.{Codec}
use holographic_plus.ExtractQueue.Enqueue.{oldest, is_active_hash}
use holographic_plus.ExtractQueue.Claim.{
  ClaimRequest, is_due, choose_owner, lease, take_lease, is_candidate, next_pending,
}
use holographic_plus.ExtractQueue.Revive.{
  revived_row, is_dead_hash, may_revive, is_revivable, revive_dead, recent_quota_dead,
  revive_recent_quota_dead,
}
use holographic_plus.ExtractQueue.WellFormed.{
  IsWellFormed, breaks_lease, update_general, update-IsWellFormed,
}

due_was_active : (m now : ℕ) (r : Row) → is_due m now r ≡ true → is_active r.status ≡ true
unfolding is_due is_active
due_was_active m now r h = ground arith

lease_rows-IsWellFormed :
    {q : Queue} (row_id m now : ℕ) (owner : String) (until : ℕ)
    → IsWellFormed q
    → IsWellFormed (record q {
      rows = update_where (λ r. has_id row_id r && is_due m now r) (lease owner until) q.rows;
    })
unfolding breaks_lease is_active_hash
lease_rows-IsWellFormed row_id m now owner until w =
    update-IsWellFormed _ (lease owner until) w (λ r. refl)
      (λ r h c active. ground (arith, due_was_active m now r)) (λ r c broken. cc)

take_lease-IsWellFormed :
    {q : Queue} (codec : Codec) (c : ClaimRequest) (row_id : ℕ)
    → IsWellFormed q
    → IsWellFormed (take_lease codec c row_id q).0
unfolding take_lease
take_lease-IsWellFormed {q} codec c row_id w =
    let owner = choose_owner c.generated c.lease_owner in
    let claimable : Row → Bool = λ r. has_id row_id r && is_due c.max_attempts c.now r in
    let rows = update_where claimable (lease owner (c.now + c.lease_seconds)) q.rows in
    let kept =
      lease_rows-IsWellFormed row_id c.max_attempts c.now owner (c.now + c.lease_seconds) w in
    elim (Bool-cases (count claimable q.rows == 1)) [
      | inr none_taken ↦ rw none_taken w
      | inl taken ↦ rw taken (elim (Option-cases (find (has_id row_id) rows)) [
        | inl e ↦ rw (e, take_lease) kept
        | inr (r, e) ↦ rw (e, take_lease) kept
      ])
    ]

pub next_pending-IsWellFormed :
    {q : Queue} (codec : Codec) (c : ClaimRequest)
    → IsWellFormed q
    → IsWellFormed (next_pending codec c q).0
unfolding next_pending
next_pending-IsWellFormed {q} codec c w = elim (Option-cases (oldest (is_candidate c) q.rows)) [
  | inl drained ↦ rw (drained, next_pending) w
  | inr (r, found) ↦ rw (found, next_pending) (take_lease-IsWellFormed codec c r.id w)
]

may_revive_of_revivable :
    (rows : List Row) (ids : Option (List ℕ)) (h : String) (r : Row)
    → is_revivable rows ids r ≡ true
    → text_is r.payload_hash h ≡ true
    → may_revive rows (some h) r.id ≡ true
unfolding is_revivable
may_revive_of_revivable rows ids h r c same =
    let allowed : may_revive rows r.payload_hash r.id ≡ true = ground arith in
    rw (text_is_eq r.payload_hash h same) at allowed

-- A revived row with this hash means that no row with it was active.
revivable_free :
    (rows : List Row) (ids : Option (List ℕ)) (h : String) (r : Row)
    → is_revivable rows ids r ≡ true
    → text_is r.payload_hash h ≡ true
    → any (is_active_hash h) rows ≡ false
unfolding may_revive
revivable_free rows ids h r c same = ground (arith, may_revive_of_revivable rows ids h r c same)

-- Such a row is the oldest dead one with its hash.
revivable_oldest :
    (rows : List Row) (ids : Option (List ℕ)) (h : String) (r : Row)
    → is_revivable rows ids r ≡ true
    → text_is r.payload_hash h ≡ true
    → number_is (Option.map (λ (d : Row). d.id) (oldest (is_dead_hash h) rows)) r.id ≡ true
unfolding may_revive
revivable_oldest rows ids h r c same = ground (arith, may_revive_of_revivable rows ids h r c same)

revived_hashes :
    (q : Queue) (ids : Option (List ℕ)) (h : String)
    → IsWellFormed q
    → count (is_active_hash h) (update_where (is_revivable q.rows ids) revived_row q.rows) ≤ 1
unfolding is_active_hash
revived_hashes q ids h w = elim (Bool-cases (any (is_active_hash h) q.rows)) [
  | inl taken ↦ omega (
    arith,
    w.hashes_unique h,
    count-update-le (is_active_hash h) (is_revivable q.rows ids) revived_row q.rows
        (λ r c active. absurd (false≢true (sym (revivable_free q.rows ids h r c active) ∙ taken))),
  )
  | inr free ↦ elim (Option-cases (oldest (is_dead_hash h) q.rows)) [
    | inl nothing ↦ omega (
      arith,
      count_of_not-any (is_active_hash h) q.rows free,
      w.hashes_unique h,
      count-update-le (is_active_hash h) (is_revivable q.rows ids) revived_row q.rows
          (λ r c active. ground (arith, revivable_oldest q.rows ids h r c active)),
    )
    | inr (d, first) ↦ omega (
      arith,
      count_of_not-any (is_active_hash h) q.rows free,
      w.ids_unique d.id,
      count-update-add (is_active_hash h) (has_id d.id) (is_revivable q.rows ids) revived_row q.rows
          (λ r c active. ground (arith, revivable_oldest q.rows ids h r c active)),
    )
  ]
]

pub revive_dead-IsWellFormed :
    {q : Queue} (ids : Option (List ℕ)) → IsWellFormed q → IsWellFormed (revive_dead ids q).0
unfolding revive_dead breaks_lease
revive_dead-IsWellFormed {q} ids w =
    update_general _ revived_row w (λ r. refl) (λ h. revived_hashes q ids h w) (λ r c broken. cc)

pub revive_recent-IsWellFormed :
    {q : Queue} (now : ℕ) → IsWellFormed q → IsWellFormed (revive_recent_quota_dead now q).0
unfolding revive_recent_quota_dead
revive_recent-IsWellFormed {q} now w =
    revive_dead-IsWellFormed (some (recent_quota_dead now q.rows)) w
