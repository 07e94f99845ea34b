-- ===== src/StateSlots/Disputes.antt =====
-- Which decisions leave a dispute visible: a contested slot stays contested or is superseded whole,
-- and nothing is added beside an overlapping value.
use mathlib.Core.Bool.{true≢false}
use holographic_plus.Base.{
  ◌≡◌, ◌≢◌, refl, sym, ◌∙◌, true, false, Option, none, some, List, [], ◌∷◌, str_eq, ok, >>=-eq-ok,
  arith, Bool-cases, inl, inr,
}
use holographic_plus.Timestamps.{FromIso, parse_timestamp}
use holographic_plus.FactStore.{Store}
use holographic_plus.StateSlots.Candidate.{
  StateCandidate, CurrentStateFact, SlotDecision, add, dedup,
}
use holographic_plus.StateSlots.Decide.{
  with_times, decide_conflicted, decide_against, decide_settled, is_contested, decide_occupied,
  decide_among, decide_state_write,
}
use holographic_plus.StateSlots.Authority.{IsBased, decide-IsBased, decide_from_based, ap_action}

module _ (iso : FromIso) (c : StateCandidate) where
  conflicted_action :
      (current : List CurrentStateFact) (exact : Option CurrentStateFact) {d : SlotDecision}
      → decide_conflicted iso c current exact ≡ ok d
      → (d.action ≢ add) × (d.action ≢ dedup)
  unfolding decide_conflicted
  conflicted_action current exact {d} h =
      let (t, p, rest) = >>=-eq-ok (parse_timestamp iso c.valid_from) _ h in
      let (members, q, chosen) = >>=-eq-ok (with_times iso current) _ rest in
      (λ e. ground arith, λ e. ground arith)

  contested_among :
      (current overlapping : List CurrentStateFact) {d : SlotDecision}
      → is_contested current ≡ true
      → decide_among iso c current overlapping ≡ ok d
      → (d.action ≢ add) × (d.action ≢ dedup)
  unfolding decide_among decide_occupied
  contested_among [] overlapping contested h = cc
  contested_among (f ∷ fs) overlapping contested h =
      conflicted_action (f ∷ fs) _ (rw contested at h)

  against_action :
      (existing : CurrentStateFact) {d : SlotDecision}
      → decide_against iso c existing ≡ ok d
      → (d.action ≢ add) × (d.action ≢ dedup)
  unfolding decide_against
  against_action existing {d} h =
      let (t, p, rest) = >>=-eq-ok (parse_timestamp iso c.valid_from) _ h in
      let (s, q, chosen) = >>=-eq-ok (parse_timestamp iso existing.valid_from) _ rest in
      (λ e. ground arith, λ e. ground arith)

  settled_add :
      (current overlapping peers : List CurrentStateFact) (exact : Option CurrentStateFact)
      {d : SlotDecision}
      → decide_settled iso c current overlapping peers exact ≡ ok d
      → d.action ≡ add
      → overlapping ≡ []
  unfolding decide_settled
  settled_add current overlapping peers (some exact) h act = cc (ap_action h)
  settled_add current [] peers none h act = refl
  settled_add current (existing ∷ rest) peers none h act =
      absurd ((against_action existing h).0 act)

  among_add :
      (current overlapping : List CurrentStateFact) {d : SlotDecision}
      → decide_among iso c current overlapping ≡ ok d
      → d.action ≡ add
      → (overlapping ≡ []) × (is_contested current ≡ false)
  unfolding decide_among decide_occupied
  among_add [] [] h act = (refl, refl)
  among_add [] (f ∷ fs) h act = (settled_add [] (f ∷ fs) (f ∷ fs) _ h act, refl)
  among_add (f ∷ fs) overlapping h act = elim (Bool-cases (is_contested (f ∷ fs))) [
    | inl contested ↦ absurd ((contested_among (f ∷ fs) overlapping contested h).0 act)
    | inr settled ↦ (settled_add (f ∷ fs) overlapping (f ∷ fs) _ (rw settled at h) act, settled)
  ]

-- While the open values of a slot are contested, no decision on a typed write to it is an
-- addition or a repetition.
pub contested_stays :
    (store : Store) (iso : FromIso) (c : StateCandidate) {d : SlotDecision}
    {current overlapping : List CurrentStateFact}
    → str_eq c.memory_kind "state" ≡ true
    → IsBased iso store c current overlapping
    → is_contested current ≡ true
    → decide_state_write iso store c ≡ ok d
    → (d.action ≢ add) × (d.action ≢ dedup)
contested_stays store iso c {current = current} {overlapping = overlapping} state based contested
      h =
    contested_among iso c current overlapping contested
      (sym (decide_from_based iso store c state based) ∙ h)

-- A decision to add a typed value means that the slot is not contested and that no value which
-- the store believes overlaps its interval.
pub add_is_free :
    (store : Store) (iso : FromIso) (c : StateCandidate) {d : SlotDecision}
    → str_eq c.memory_kind "state" ≡ true
    → decide_state_write iso store c ≡ ok d
    → d.action ≡ add
    → (current : List CurrentStateFact) × IsBased iso store c current []
      × (is_contested current ≡ false)
add_is_free store iso c state h act = elim (decide-IsBased iso store c h) [
  | inl (other, plain) ↦ absurd (true≢false (sym state ∙ other))
  | inr (current, overlapping, based, among) ↦
      let (free, settled) = among_add iso c current overlapping among act in
      (current, rw free at based, settled)
]
