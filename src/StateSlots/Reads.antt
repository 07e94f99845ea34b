-- ===== src/StateSlots/Reads.antt =====
-- `current_state_facts`, `_believed_state_facts`, `read_current_state`.
use holographic_plus.Base.{
  String, Bool, true, false, ◌&&◌, ◌||◌, Option, none, some, List, [], ◌∷◌, map, is_none, is_some,
  is_empty, value_or, any, select, if◌then◌else◌, Result, ok, raise, invariant_error, ◌>>=◌,
}
use holographic_plus.FactStore.{Fact, Store, default_authority, is_current, in_slot}
use holographic_plus.StateSlots.Keys.{required}
use holographic_plus.StateSlots.Candidate.{CurrentStateFact}

abbrev pub view : Fact → CurrentStateFact
view f = record {
  fact_id = f.fact_id;
  content = f.content;
  subject_key = f.subject_key;
  predicate_key = f.predicate_key;
  scope = f.scope;
  object_value = f.object_value;
  source_authority = value_or f.source_authority default_authority;
  valid_from = f.valid_from;
  conflict_group = f.conflict_group;
  valid_to = f.valid_to;
}

-- The rows of the slot that are current and whose interval is open.
unfoldable pub is_open : String → String → String → Fact → Bool
unfolding is_current in_slot
is_open scope subject predicate f =
    in_slot scope subject predicate f && is_current f && is_none f.valid_to

unfoldable pub current_state_facts :
    String → String → String → Store → Result (List CurrentStateFact)
current_state_facts subject_key predicate_key scope store = do
  subject ← required subject_key
  predicate ← required predicate_key
  given_scope ← required scope
  ok (map view (select (is_open given_scope subject predicate) store.facts))

-- `expired_at IS NULL AND (invalid_at IS NULL OR valid_to IS NOT NULL)`
unfoldable pub is_believed : String → String → String → Fact → Bool
unfolding in_slot
is_believed scope subject predicate f =
    in_slot scope subject predicate f
    && is_none f.expired_at
    && (is_none f.invalid_at || is_some f.valid_to)

unfoldable pub believed_state_facts : String → String → String → Store → List CurrentStateFact
unfolding is_believed
believed_state_facts subject predicate scope store =
    map view (select (is_believed scope subject predicate) store.facts)

-- The truth of an optional text in Python.
abbrev pub truthy : Option String → Bool
truthy none = false
truthy (some s) = if is_empty s then false else true

unfoldable pub in_conflict : CurrentStateFact → Bool
in_conflict f = truthy f.conflict_group

abbrev pub only_one : List CurrentStateFact → Result (Option CurrentStateFact)
only_one [] = ok none
only_one (f ∷ []) = ok (some f)
only_one (f ∷ g ∷ rest) = raise invariant_error

abbrev pub abstain : List CurrentStateFact → Result (Option CurrentStateFact)
abstain facts = if any in_conflict facts then ok none else only_one facts

unfoldable pub read_current_state :
    String → String → String → Store → Result (Option CurrentStateFact)
unfolding current_state_facts in_conflict
read_current_state subject_key predicate_key scope store = do
  facts ← current_state_facts subject_key predicate_key scope store
  abstain facts
