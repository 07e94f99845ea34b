-- ===== src/StateSlots/Freshness.antt =====
-- Dates in decide_state_write: what is superseded in a slot without a dispute is not newer.
use holographic_plus.Base.{
  ℕ, ◌≤◌, ◌≡◌, refl, sym, ◌∙◌, true, false, ◌||◌, Option, none, some, List, [], ◌∷◌, str_eq, ok,
  >>=-eq-ok, arith,
}
use holographic_plus.Timestamps.{FromIso, parse_timestamp}
use holographic_plus.FactStore.{Store}
use holographic_plus.StateSlots.Candidate.{
  StateCandidate, CurrentStateFact, SlotDecision, supersede,
}
use holographic_plus.StateSlots.Decide.{
  is_not_older, is_fresher, decide_against, decide_settled, is_contested, decide_occupied,
  decide_among, decide_state_write,
}
use holographic_plus.StateSlots.Authority.{IsBased, decide_from_based, ap_action}

-- Both dates can be read; where the fact has one, the candidate has one, and it is no earlier.
pub record IsNotOlder (iso : FromIso) (c : StateCandidate) (f : CurrentStateFact) : Type 0 where
  pub fact_time : Option ℕ
  pub candidate_time : Option ℕ
  pub fact_date : parse_timestamp iso f.valid_from ≡ ok fact_time
  pub candidate_date : parse_timestamp iso c.valid_from ≡ ok candidate_time
  pub no_earlier : (s : ℕ) → fact_time ≡ some s → (t : ℕ) × (candidate_time ≡ some t) × (s ≤ t)

not_older_lem :
    (existing t : Option ℕ)
    → (is_not_older existing t || is_fresher existing t) ≡ true
    → (s : ℕ) → existing ≡ some s
    → (u : ℕ) × (t ≡ some u) × (s ≤ u)
not_older_lem none t h s e = cc
not_older_lem (some x) none h s e = cc
not_older_lem (some x) (some u) h s e =
    let same : x ≡ s = cc e in (u, refl, rw (← same) (ground arith))

module _ (iso : FromIso) (c : StateCandidate) where
  against-IsNotOlder :
      (existing : CurrentStateFact) {d : SlotDecision}
      → decide_against iso c existing ≡ ok d
      → d.action ≡ supersede
      → (d.current_fact_ids ≡ existing.fact_id ∷ []) × IsNotOlder iso c existing
  unfolding decide_against
  against-IsNotOlder existing {d} h act =
      let (t, p, after) = >>=-eq-ok (parse_timestamp iso c.valid_from) _ h in
      let (s, q, chosen) = >>=-eq-ok (parse_timestamp iso existing.valid_from) _ after in
      (
        ground arith,
        record {
          fact_time = s;
          candidate_time = t;
          fact_date = q;
          candidate_date = p;
          no_earlier = not_older_lem s t (ground arith);
        },
      )

  settled_lem :
      (current overlapping peers : List CurrentStateFact) (exact : Option CurrentStateFact)
      {d : SlotDecision}
      → decide_settled iso c current overlapping peers exact ≡ ok d
      → d.action ≡ supersede
      → (f : CurrentStateFact) × (rest : List CurrentStateFact) × (overlapping ≡ f ∷ rest)
        × (d.current_fact_ids ≡ f.fact_id ∷ [])
        × IsNotOlder iso c f
  unfolding decide_settled
  settled_lem current overlapping peers (some exact) h act = cc (ap_action h)
  settled_lem current [] peers none h act = cc (ap_action h)
  settled_lem current (existing ∷ rest) peers none h act =
      let (ids, older) = against-IsNotOlder existing h act in (existing, rest, refl, ids, older)

  among_lem :
      (current overlapping : List CurrentStateFact) {d : SlotDecision}
      → is_contested current ≡ false
      → decide_among iso c current overlapping ≡ ok d
      → d.action ≡ supersede
      → (f : CurrentStateFact) × (rest : List CurrentStateFact) × (overlapping ≡ f ∷ rest)
        × (d.current_fact_ids ≡ f.fact_id ∷ [])
        × IsNotOlder iso c f
  unfolding decide_among decide_occupied
  among_lem [] [] settled h act = cc (ap_action h)
  among_lem [] (f ∷ fs) settled h act = settled_lem [] (f ∷ fs) (f ∷ fs) _ h act
  among_lem (f ∷ fs) overlapping settled h act =
      settled_lem (f ∷ fs) overlapping (f ∷ fs) _ (rw settled at h) act

-- In a slot that is not contested, a decision to supersede replaces exactly one value, the first
-- that overlaps the interval of the candidate, and the candidate is not demonstrably older: where
-- that value has a date, the candidate has one, and it is no earlier.
pub settled-IsNotOlder :
    (iso : FromIso) (store : Store) (c : StateCandidate) {d : SlotDecision}
    {current overlapping : List CurrentStateFact}
    → str_eq c.memory_kind "state" ≡ true
    → IsBased iso store c current overlapping
    → is_contested current ≡ false
    → decide_state_write iso store c ≡ ok d
    → d.action ≡ supersede
    → (f : CurrentStateFact) × (rest : List CurrentStateFact) × (overlapping ≡ f ∷ rest)
      × (d.current_fact_ids ≡ f.fact_id ∷ [])
      × IsNotOlder iso c f
settled-IsNotOlder iso store c {current = current} {overlapping = overlapping} state based settled h
      act =
    among_lem iso c current overlapping settled
      (sym (decide_from_based iso store c state based) ∙ h) act
