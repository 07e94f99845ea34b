-- ===== src/StateSlots/Authority.antt =====
-- Authority and freshness: what a decision to supersede, to add or to deduplicate rests on.
use holographic_plus.Base.{
  ℕ, ◌<◌, ◌≡◌, ◌≢◌, ◌⊎◌, ◌++◌, refl, ap, ◌∙◌, Bool, true, false, ◌&&◌, ◌||◌, Option, none, some,
  List, [], ◌∷◌, ltb, ◌==◌, str_eq, all, if◌then◌else◌, Result, ok, >>=-eq-ok, arith, Bool-cases,
  inl, inr,
}
use holographic_plus.Timestamps.{FromIso, parse_timestamp}
use holographic_plus.FactStore.{Store}
use holographic_plus.StateSlots.Candidate.{
  StateCandidate, CurrentStateFact, SlotDecision, add, supersede,
}
use holographic_plus.StateSlots.Reads.{current_state_facts, believed_state_facts}
use holographic_plus.StateSlots.Decide.{
  decision, ids_of, dated_wins, dated_candidate_wins, max_authority, overlapping_facts, with_times,
  decide_conflicted, is_fresher, decide_against, decide_settled, is_contested, decide_occupied,
  decide_among, decide_state_write,
}

pub ap_action : {d e : SlotDecision} → Result.ok d ≡ ok e → d.action ≡ e.action
ap_action h = cc

-- The candidate ranks above a fact: by authority, or at equal authority by a later date.
abbrev pub fresher_at : Result (Option ℕ) → Result (Option ℕ) → Bool
fresher_at (ok existing) (ok t) = is_fresher existing t
fresher_at _ _ = false

unfoldable pub outranks : FromIso → StateCandidate → CurrentStateFact → Bool
outranks iso c f =
    ltb f.source_authority c.source_authority
    || (f.source_authority == c.source_authority
        && fresher_at (parse_timestamp iso f.valid_from) (parse_timestamp iso c.valid_from))

module _ (iso : FromIso) (c : StateCandidate) where
  dated_wins-outranks :
      (t : ℕ) (f : CurrentStateFact) (s : Option ℕ)
      → parse_timestamp iso c.valid_from ≡ ok (some t)
      → parse_timestamp iso f.valid_from ≡ ok s
      → dated_wins c t (f, s) ≡ true
      → outranks iso c f ≡ true
  unfolding outranks dated_wins
  dated_wins-outranks t f s e e' h = rw (e, e') (ground arith)

  all_dated :
      (t : ℕ) (fs : List CurrentStateFact) (members : List (CurrentStateFact × Option ℕ))
      → parse_timestamp iso c.valid_from ≡ ok (some t)
      → with_times iso fs ≡ ok members
      → all (dated_wins c t) members ≡ true
      → all (outranks iso c) fs ≡ true
  unfolding with_times
  all_dated t [] members e h wins = refl
  all_dated t (f ∷ fs) members e h wins =
      let (s, p, rest) = >>=-eq-ok (parse_timestamp iso f.valid_from) _ h in
      let (ms, q, whole) = >>=-eq-ok (with_times iso fs) _ rest in
      let split : all (dated_wins c t) ((f, s) ∷ ms) ≡ true =
        cc (ap (λ (x : Result (List (CurrentStateFact × Option ℕ))). x) whole) in
      ground (arith, dated_wins-outranks t f s e p, all_dated t fs ms e q)

  below_max :
      (fs : List CurrentStateFact)
      → max_authority fs < c.source_authority
      → all (outranks iso c) fs ≡ true
  unfolding max_authority outranks
  below_max [] h = refl
  below_max (f ∷ fs) h = ground (arith, below_max fs)

-- A choice of the three that supersedes and is not the first is the second.
second_choice :
    (first low : Bool) (x y z d : SlotDecision)
    → Result.ok (if first then x else if low then y else z) ≡ ok d
    → z.action ≢ supersede
    → d.action ≡ supersede
    → first ≡ false
    → low ≡ true
second_choice true low x y z d h keeps act late = cc
second_choice false true x y z d h keeps act late = refl
second_choice false false x y z d h keeps act late = absurd (keeps (ap_action h ∙ act))

-- The facts that a decision to supersede replaces: all open values of a contested slot, or the
-- first overlapping one of a settled slot. The candidate outranks each of them.
pub record IsSupersession (iso : FromIso) (c : StateCandidate)
    (current overlapping : List CurrentStateFact) (d : SlotDecision) : Type 0 where
  pub losers : List CurrentStateFact
  pub ids : d.current_fact_ids ≡ ids_of losers
  pub source :
      (is_contested current ≡ true) × (losers ≡ current)
      ⊎ ((rest : List CurrentStateFact) × (overlapping ≡ losers ++ rest))
  pub outranked : all (outranks iso c) losers ≡ true

module _ (iso : FromIso) (c : StateCandidate) where
  conflicted_supersedes :
      (current overlapping : List CurrentStateFact) (exact : Option CurrentStateFact)
      {d : SlotDecision}
      → is_contested current ≡ true
      → decide_conflicted iso c current exact ≡ ok d
      → d.action ≡ supersede
      → IsSupersession iso c current overlapping d
  unfolding decide_conflicted
  conflicted_supersedes current overlapping exact {d} contested h act =
      let (t, p, rest) = >>=-eq-ok (parse_timestamp iso c.valid_from) _ h in
      let (members, q, chosen) = >>=-eq-ok (with_times iso current) _ rest in
      let ids : d.current_fact_ids ≡ ids_of current = ground arith in
      record {
        losers = current;
        ids = ids;
        source = inl (contested, refl);
        outranked = elim (Bool-cases (dated_candidate_wins c t members)) [
          | inl wins ↦ dated t members p q wins
          | inr late ↦ below_max iso c current (
              ground (
                arith,
                second_choice (dated_candidate_wins c t members)
                    (ltb (max_authority current) c.source_authority) _ _ _ d chosen (λ e. cc) act
                    late,
              ))
        ];
      }
    where
      dated :
          (t : Option ℕ) (members : List (CurrentStateFact × Option ℕ))
          → parse_timestamp iso c.valid_from ≡ ok t
          → with_times iso current ≡ ok members
          → dated_candidate_wins c t members ≡ true
          → all (outranks iso c) current ≡ true
      dated none members p q wins = cc
      dated (some t) members p q wins = all_dated iso c t current members p q wins

  against_supersedes :
      (current rest : List CurrentStateFact) (existing : CurrentStateFact) {d : SlotDecision}
      → decide_against iso c existing ≡ ok d
      → d.action ≡ supersede
      → IsSupersession iso c current (existing ∷ rest) d
  unfolding decide_against outranks
  against_supersedes current rest existing {d} h act =
      let (t, p, after) = >>=-eq-ok (parse_timestamp iso c.valid_from) _ h in
      let (s, q, chosen) = >>=-eq-ok (parse_timestamp iso existing.valid_from) _ after in
      record {
        losers = existing ∷ [];
        ids = ground arith;
        source = inr (rest, refl);
        outranked = rw (p, q) (ground arith);
      }

  settled_supersedes :
      (current overlapping peers : List CurrentStateFact) (exact : Option CurrentStateFact)
      {d : SlotDecision}
      → decide_settled iso c current overlapping peers exact ≡ ok d
      → d.action ≡ supersede
      → IsSupersession iso c current overlapping d
  unfolding decide_settled
  settled_supersedes current overlapping peers (some exact) h act = cc (ap_action h)
  settled_supersedes current [] peers none h act = cc (ap_action h)
  settled_supersedes current (existing ∷ rest) peers none h act =
      against_supersedes current rest existing h act

  occupied_supersedes :
      (current overlapping : List CurrentStateFact) {d : SlotDecision}
      → decide_occupied iso c current overlapping ≡ ok d
      → d.action ≡ supersede
      → IsSupersession iso c current overlapping d
  unfolding decide_occupied
  occupied_supersedes current overlapping h act = elim (Bool-cases (is_contested current)) [
    | inl contested ↦ conflicted_supersedes current overlapping _ contested (rw contested at h) act
    | inr settled ↦ settled_supersedes current overlapping _ _ (rw settled at h) act
  ]

  among_supersedes :
      (current overlapping : List CurrentStateFact) {d : SlotDecision}
      → decide_among iso c current overlapping ≡ ok d
      → d.action ≡ supersede
      → IsSupersession iso c current overlapping d
  unfolding decide_among
  among_supersedes [] [] h act = cc (ap_action h)
  among_supersedes [] (f ∷ fs) h act = occupied_supersedes [] (f ∷ fs) h act
  among_supersedes (f ∷ fs) overlapping h act = occupied_supersedes (f ∷ fs) overlapping h act

-- What the decision was based on: the open values of the slot and the believed ones whose interval
-- overlaps the candidate's.
pub record IsBased (iso : FromIso) (store : Store) (c : StateCandidate)
    (current overlapping : List CurrentStateFact) : Type 0 where
  pub open_values : current_state_facts c.subject_key c.predicate_key c.scope store ≡ ok current
  pub overlaps :
      overlapping_facts iso c (believed_state_facts c.subject_key c.predicate_key c.scope store)
      ≡ ok overlapping

pub decide_from_based :
    (iso : FromIso) (store : Store) (c : StateCandidate)
    {current overlapping : List CurrentStateFact}
    → str_eq c.memory_kind "state" ≡ true
    → IsBased iso store c current overlapping
    → decide_state_write iso store c ≡ decide_among iso c current overlapping
unfolding decide_state_write
decide_from_based iso store c state based = rw state (rw based.open_values (rw based.overlaps refl))

pub decide-IsBased :
    (iso : FromIso) (store : Store) (c : StateCandidate) {d : SlotDecision}
    → decide_state_write iso store c ≡ ok d
    → (str_eq c.memory_kind "state" ≡ false)
        × (d ≡ decision c add [] none "non-state memories coexist")
      ⊎ ((current : List CurrentStateFact) × (overlapping : List CurrentStateFact) × IsBased iso
            store c current overlapping
          × (decide_among iso c current overlapping ≡ ok d))
unfolding decide_state_write
decide-IsBased iso store c {d} h = elim (Bool-cases (str_eq c.memory_kind "state")) [
  | inr other ↦ inl (other, ground arith)
  | inl state ↦
      let (current, p, rest) =
        >>=-eq-ok (current_state_facts c.subject_key c.predicate_key c.scope store) _
          (rw state at h) in
      let (overlapping, q, among) = >>=-eq-ok (overlapping_facts iso c _) _ rest in
      inr (current, overlapping, record { open_values = p; overlaps = q }, among)
]

-- A write supersedes only what it outranks: higher authority, or equal authority and a strictly
-- later date (any date beats none). No value of higher authority is ever replaced.
pub supersede_outranks :
    (iso : FromIso) (store : Store) (c : StateCandidate) {d : SlotDecision}
    → decide_state_write iso store c ≡ ok d
    → d.action ≡ supersede
    → (current : List CurrentStateFact) × (overlapping : List CurrentStateFact) × IsBased iso store
        c current overlapping
      × IsSupersession iso c current overlapping d
supersede_outranks iso store c h act = elim (decide-IsBased iso store c h) [
  | inl (kind, plain) ↦ cc (ap (λ (x : SlotDecision). x.action) plain)
  | inr (current, overlapping, based, among) ↦
      (current, overlapping, based, among_supersedes iso c current overlapping among act)
]
