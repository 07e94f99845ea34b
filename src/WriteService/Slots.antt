-- ===== src/WriteService/Slots.antt =====
-- The statements of a typed write: `_prepare_state_mutation`, `_persist_state_candidate`,
-- `_persist_nonstate_extracted_typed_fields`, `_finish_state_supersession`.
use holographic_plus.Base.{
  ℕ, String, Bool, not, ◌&&◌, Option, none, some, List, [], ◌∷◌, str_eq, ◌==◌, is_none, is_some,
  coalesce, if◌then◌else◌, runtime_error, Result, ok, raise,
}
use holographic_plus.Exec.{Exec, pure, gets, check, lift, ◌>>=◌, ◌>>◌}
use holographic_plus.FactStore.{Fact, Store, has_fact_id, is_current}
use holographic_plus.Policy.Scopes.{is_one_of}
use holographic_plus.StateSlots.Candidate.{
  StateCandidate, SlotDecision, Action, add, dedup, supersede, conflict,
}
use holographic_plus.StateSlots.Tables.{update_facts}
use holographic_plus.StateSlots.Conflicts.{Ambient, open_state_conflict}
use holographic_plus.WriteService.Rows.{Service, FactWriteResult}
use holographic_plus.WriteService.Typed.{ExtractedTypedFields}
use holographic_plus.WriteService.Plan.{groups_of}

-- `fact_id = ? AND scope = ?` of a current fact in no conflict
unfoldable pub is_target : ℕ → String → Fact → Bool
unfolding is_current
is_target i scope f =
    has_fact_id i f && str_eq f.scope scope && is_current f && is_none f.conflict_group

abbrev pub close_target : String → Option String → Fact → Fact
close_target now until f = record f {
  invalid_at = some now;
  expired_at = some now;
  valid_to = coalesce f.valid_to until;
}

-- The one group of the facts that a decision names.
abbrev pub only_group : List String → Result (Option String)
only_group (group ∷ []) = ok (some group)
only_group _ = raise runtime_error

unfoldable pub retire_target :
    SlotDecision → String → Option String → Option ℕ → Exec Store (Option String)
unfolding groups_of is_target
retire_target d now until none = do
  groups ← gets (λ (s : Store). groups_of d.current_fact_ids s.facts)
  lift (only_group groups)
retire_target d now until (some i) = do
  changed ← update_facts (is_target i d.scope) (close_target now until)
  check (changed == 1) runtime_error
  pure none

-- The conflict that a value joins.
unfoldable pub find_or_open :
    Service → Ambient → SlotDecision → String → List String → Exec Store (Option String)
find_or_open service env d now [] = do
  opened ←
      open_state_conflict env d.subject_key d.predicate_key d.current_fact_ids d.scope (some now)
        (service.reason_json d.reason)
  pure (some opened.conflict_id)
find_or_open service env d now (group ∷ groups) = lift (only_group (group ∷ groups))

unfoldable pub prepare_by :
    Service → Ambient → SlotDecision → String → Option String → Action → Exec Store (Option String)
unfolding retire_target find_or_open groups_of
prepare_by service env d now until supersede = retire_target d now until d.target_fact_id
prepare_by service env d now until conflict = do
  groups ← gets (λ (s : Store). groups_of d.current_fact_ids s.facts)
  find_or_open service env d now groups
prepare_by service env d now until add = pure none
prepare_by service env d now until dedup = pure none

unfoldable pub prepare_state_mutation :
    Service → Ambient → SlotDecision → String → Option String → Exec Store (Option String)
unfolding prepare_by
prepare_state_mutation service env d now until = prepare_by service env d now until d.action

-- The writer inserted a new fact.
unfoldable pub is_inserted : FactWriteResult → Bool
is_inserted result =
    is_none result.existing_fact_id && is_one_of ("inserted" ∷ "add" ∷ []) result.outcome

abbrev pub is_current_fact : ℕ → Fact → Bool
is_current_fact i f = has_fact_id i f && is_current f

abbrev pub with_candidate : StateCandidate → Option String → Option ℕ → String → Fact → Fact
with_candidate c conflict_id confidence now f = record f {
  memory_kind = some "state";
  subject_key = some c.subject_key;
  predicate_key = some c.predicate_key;
  object_value = c.object_value;
  source_authority = some c.source_authority;
  valid_from = c.valid_from;
  scope = c.scope;
  conflict_group = conflict_id;
  confidence = confidence;
  valid_to = c.valid_to;
  invalid_at = if is_some c.valid_to then some now else f.invalid_at;
}

-- `now` is the clock of this statement.
unfoldable pub persist_state_candidate :
    FactWriteResult → StateCandidate → Option String → Option ℕ → String → Exec Store (Unit {0})
unfolding is_inserted is_current
persist_state_candidate result c conflict_id confidence now = do
  check (is_inserted result) runtime_error
  changed ←
      update_facts (is_current_fact result.fact_id) (with_candidate c conflict_id confidence now)
  check (changed == 1) runtime_error

abbrev pub with_fields : ExtractedTypedFields → Fact → Fact
with_fields t f = record f {
  memory_kind = some t.kind;
  subject_key = some t.subject_key;
  predicate_key = some t.predicate_key;
  object_value = t.object_value;
  confidence = some t.confidence;
  valid_from = t.valid_from;
}

unfoldable pub persist_nonstate : FactWriteResult → ExtractedTypedFields → Exec Store (Unit {0})
unfolding is_inserted is_current
persist_nonstate result t = do
  check (not (str_eq t.kind "state")) runtime_error
  check (is_inserted result) runtime_error
  changed ← update_facts (is_current_fact result.fact_id) (with_fields t)
  check (changed == 1) runtime_error

abbrev pub is_retired_target : ℕ → Fact → Bool
is_retired_target i f = has_fact_id i f && is_some f.invalid_at && is_none f.superseded_by

unfoldable pub finish_state_supersession : Option ℕ → ℕ → Exec Store (Unit {0})
finish_state_supersession none new_id = lift (raise runtime_error)
finish_state_supersession (some old_id) new_id = do
  changed ← update_facts (is_retired_target old_id) (λ f. record f { superseded_by = some new_id })
  check (changed == 1) runtime_error
