-- ===== src/StateSlots/Decide.antt =====
-- `decide_state_write`: what a write to a slot does, chosen without touching the store.
use holographic_plus.Base.{
  ℕ, String, Bool, true, false, not, ◌&&◌, ◌||◌, Option, none, some, List, [], ◌∷◌, map, leb, ltb,
  ◌==◌, is_some, str_eq, same_text, all, find, max, if◌then◌else◌, Result, ok, ◌>>=◌,
}
use holographic_plus.Timestamps.{FromIso, parse_timestamp, intervals_overlap}
use holographic_plus.FactStore.{Store}
use holographic_plus.StateSlots.Candidate.{
  StateCandidate, CurrentStateFact, Action, SlotDecision, add, dedup, supersede, conflict,
}
use holographic_plus.StateSlots.Reads.{current_state_facts, believed_state_facts, in_conflict}

-- The answer of one branch.
abbrev pub decision : StateCandidate → Action → List ℕ → Option ℕ → String → SlotDecision
decision c action ids target reason = record {
  action = action;
  scope = c.scope;
  subject_key = c.subject_key;
  predicate_key = c.predicate_key;
  current_fact_ids = ids;
  target_fact_id = target;
  reason = reason;
}

abbrev pub ids_of : List CurrentStateFact → List ℕ
ids_of facts = map (λ (f : CurrentStateFact). f.fact_id) facts

abbrev pub id_of : Option CurrentStateFact → Option ℕ
id_of none = none
id_of (some f) = some f.fact_id

-- The same content, or the same structured value.
unfoldable pub is_same_value : StateCandidate → CurrentStateFact → Bool
is_same_value c f =
    str_eq f.content c.content
    || (is_some c.object_value && same_text f.object_value c.object_value)

-- `existing is None or candidate >= existing`, of a candidate with a date.
abbrev pub not_before : Option ℕ → ℕ → Bool
not_before none t = true
not_before (some existing) t = leb existing t

abbrev pub strictly_after : Option ℕ → ℕ → Bool
strictly_after none t = true
strictly_after (some existing) t = ltb existing t

-- One member of an open conflict loses to a candidate of this date.
unfoldable pub dated_wins : StateCandidate → ℕ → CurrentStateFact × Option ℕ → Bool
dated_wins c t (f, existing) =
    (ltb f.source_authority c.source_authority && not_before existing t)
    || (f.source_authority == c.source_authority && strictly_after existing t)

unfoldable pub dated_candidate_wins :
    StateCandidate → Option ℕ → List (CurrentStateFact × Option ℕ) → Bool
unfolding dated_wins
dated_candidate_wins c none members = false
dated_candidate_wins c (some t) members = all (dated_wins c t) members

-- `max(fact.source_authority for fact in current)`
unfoldable pub max_authority : List CurrentStateFact → ℕ
max_authority [] = 0
max_authority (f ∷ fs) = max f.source_authority (max_authority fs)

abbrev pub is_not_older : Option ℕ → Option ℕ → Bool
is_not_older none t = true
is_not_older (some existing) none = false
is_not_older (some existing) (some t) = leb existing t

abbrev pub is_fresher : Option ℕ → Option ℕ → Bool
is_fresher existing none = false
is_fresher existing (some t) = strictly_after existing t

abbrev pub first_nonempty : List CurrentStateFact → List CurrentStateFact → List CurrentStateFact
first_nonempty [] overlapping = overlapping
first_nonempty (f ∷ fs) overlapping = f ∷ fs

-- `len(current) > 1 or any(fact.conflict_group for fact in current)`
unfoldable pub is_contested : List CurrentStateFact → Bool
unfolding in_conflict
is_contested [] = false
is_contested (f ∷ []) = in_conflict f
is_contested (f ∷ g ∷ rest) = true

module _ (from_iso : FromIso) where
  unfoldable pub overlapping_facts :
      StateCandidate → List CurrentStateFact → Result (List CurrentStateFact)
  overlapping_facts c [] = ok []
  overlapping_facts c (f ∷ fs) = do
    overlap ← intervals_overlap from_iso f.valid_from f.valid_to c.valid_from c.valid_to
    rest ← overlapping_facts c fs
    ok (if overlap then f ∷ rest else rest)

  unfoldable pub with_times : List CurrentStateFact → Result (List (CurrentStateFact × Option ℕ))
  with_times [] = ok []
  with_times (f ∷ fs) = do
    t ← parse_timestamp from_iso f.valid_from
    rest ← with_times fs
    ok ((f, t) ∷ rest)

  -- The slot has several current values or an open conflict.
  unfoldable pub decide_conflicted :
      StateCandidate → List CurrentStateFact → Option CurrentStateFact → Result SlotDecision
  unfolding dated_candidate_wins
  decide_conflicted c current exact = do
    t ← parse_timestamp from_iso c.valid_from
    members ← with_times current
    ok (
        if dated_candidate_wins c t members
        then decision c supersede (ids_of current) none
            "dated claim supersedes every open conflict member"
        else if ltb (max_authority current) c.source_authority
        then decision c supersede (ids_of current) none "higher authority resolves open conflict"
        else decision c conflict (ids_of current) (id_of exact)
            "slot already has an unresolved conflict")

  -- One overlapping value stands in the slot, and the candidate's differs.
  unfoldable pub decide_against : StateCandidate → CurrentStateFact → Result SlotDecision
  decide_against c existing = do
    t ← parse_timestamp from_iso c.valid_from
    existing_time ← parse_timestamp from_iso existing.valid_from
    let ids = existing.fact_id ∷ []
    ok (
        if ltb existing.source_authority c.source_authority && is_not_older existing_time t
        then decision c supersede ids (some existing.fact_id) "higher authority and not older"
        else if existing.source_authority == c.source_authority && is_fresher existing_time t
        then decision c supersede ids (some existing.fact_id)
            "same authority with newer validity time"
        else decision c conflict ids none "authority and freshness do not establish a clear winner")

  unfoldable pub decide_settled :
      StateCandidate
      → List CurrentStateFact
      → List CurrentStateFact
      → List CurrentStateFact
      → Option CurrentStateFact
      → Result SlotDecision
  unfolding decide_against
  decide_settled c current overlapping peers (some exact) = ok (
      decision c dedup (ids_of peers) (some exact.fact_id)
        "identical current content or structured value")
  decide_settled c current [] peers none =
      ok (decision c add (ids_of current) none "valid intervals do not overlap")
  decide_settled c current (existing ∷ rest) peers none = decide_against c existing

  unfoldable pub decide_occupied :
      StateCandidate → List CurrentStateFact → List CurrentStateFact → Result SlotDecision
  unfolding is_same_value is_contested decide_conflicted decide_settled
  decide_occupied c current overlapping =
      let peers = first_nonempty current overlapping in
      let exact = find (is_same_value c) peers in
      if is_contested current
      then decide_conflicted c current exact
      else decide_settled c current overlapping peers exact

  -- With nothing in the slot the candidate is added.
  unfoldable pub decide_among :
      StateCandidate → List CurrentStateFact → List CurrentStateFact → Result SlotDecision
  unfolding decide_occupied
  decide_among c [] [] = ok (decision c add [] none "slot has no current overlapping value")
  decide_among c [] (f ∷ fs) = decide_occupied c [] (f ∷ fs)
  decide_among c (f ∷ fs) overlapping = decide_occupied c (f ∷ fs) overlapping

  unfoldable pub decide_state_write : Store → StateCandidate → Result SlotDecision
  unfolding decide_among
  decide_state_write store c =
      if not (str_eq c.memory_kind "state")
      then ok (decision c add [] none "non-state memories coexist")
      else do
        current ← current_state_facts c.subject_key c.predicate_key c.scope store
        overlapping ←
            overlapping_facts c (believed_state_facts c.subject_key c.predicate_key c.scope store)
        decide_among c current overlapping
