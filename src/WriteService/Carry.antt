-- ===== src/WriteService/Carry.antt =====
-- The second part of the transaction of `write`: an admitted write is carried out, its provenance
-- attached, and its result logged.
use holographic_plus.Base.{
  ℕ, String, Bool, true, false, not, ◌&&◌, Option, none, some, List, is_none, is_empty, value_or,
  find, if◌then◌else◌, runtime_error, Result, raise,
}
use holographic_plus.Exec.{Exec, pure, gets, lift, ◌>>=◌, ◌>>◌}
use holographic_plus.FactStore.{Fact, Store, has_fact_id}
use holographic_plus.Policy.Grants.{ConnectionContext}
use holographic_plus.Policy.Writes.{WriteRequest}
use holographic_plus.StateSlots.Candidate.{
  StateCandidate, SlotDecision, Action, add, dedup, supersede, conflict,
}
use holographic_plus.StateSlots.Conflicts.{Ambient, add_conflict_member}
use holographic_plus.StateSlots.Resolve.{ResolveRequest, resolve_state_conflict}
use holographic_plus.WriteService.Rows.{
  Vault, Service, Surroundings, FactWriteResult, NearDuplicateCandidate, Query,
}
use holographic_plus.WriteService.Typed.{ExtractedTypedFields}
use holographic_plus.WriteService.Plan.{Plan, is_conflict}
use holographic_plus.WriteService.Queries.{find_untyped_exact_duplicate}
use holographic_plus.WriteService.Slots.{
  prepare_state_mutation, persist_state_candidate, persist_nonstate, finish_state_supersession,
}
use holographic_plus.WriteService.Untyped.{
  UntypedContradiction, find_untyped_contradiction, contradiction_from_near_duplicate,
  open_untyped_write_conflict, find_untyped_near_duplicate, merge_near_duplicate,
}

module _ {A : Type 0} where
  abbrev with_store : Vault → Result A × Store → Result A × Vault
  with_store v (result, store) = (result, record v { store = store })

  -- A method on the tables of facts and conflicts.
  unfoldable pub on_store : Exec Store A → Exec Vault A
  on_store m v = with_store v (m v.store)

abbrev with_facts : Store → Result FactWriteResult × List Fact → Result FactWriteResult × Store
with_facts s (result, facts) = (result, record s { facts = facts })

-- The writer of facts.
unfoldable pub write_fact : Service → WriteRequest → ℕ → Exec Store FactWriteResult
write_fact service r observation_id s = with_facts s (service.fact_writer r observation_id s.facts)

-- What an untyped write finds.
pub record Matches : Type 0 where
  pub duplicate : Option Fact
  pub contradiction : Option UntypedContradiction
  pub near : Option NearDuplicateCandidate

abbrev pub no_matches : Matches
no_matches = record { duplicate = none; contradiction = none; near = none }

module _ (service : Service) (env : Ambient) (r : WriteRequest) where
  abbrev pub convert : List Fact → Option NearDuplicateCandidate → Matches
  convert facts none = no_matches
  convert facts (some near) = elim (contradiction_from_near_duplicate service env r facts near) [
    | none ↦ record no_matches { near = some near }
    | some m ↦ record no_matches { contradiction = some m }
  ]

  -- For a write that is not typed: the first that there is of a contradiction and a near duplicate.
  unfoldable pub compare_untyped : Query → List Fact → Matches
  unfolding find_untyped_contradiction find_untyped_near_duplicate contradiction_from_near_duplicate
  compare_untyped query facts = elim (find_untyped_contradiction service env r facts) [
    | some m ↦ record no_matches { contradiction = some m }
    | none ↦ convert facts (find_untyped_near_duplicate service r query facts)
  ]

  unfoldable pub match_untyped :
      Option StateCandidate → Option ExtractedTypedFields → Query → List Fact → Matches
  unfolding find_untyped_exact_duplicate compare_untyped
  match_untyped (some c) typed query facts = no_matches
  match_untyped none typed query facts = elim (find_untyped_exact_duplicate r facts) [
    | some f ↦ record no_matches { duplicate = some f }
    | none ↦
        if is_none typed && is_none r.supersede_fact_id
        then compare_untyped query facts
        else no_matches
  ]

-- What stands of a write before its provenance: the result, the fact to embed, and the conflict.
pub record Carried : Type 0 where
  pub result : FactWriteResult
  pub enqueue : Option ℕ
  pub conflict_id : Option String

abbrev pub existing_result : ℕ → String → FactWriteResult
existing_result i outcome = record {
  fact_id = i;
  outcome = outcome;
  existing_fact_id = some i;
  detail_json = "{}";
}

abbrev pub action_name : Action → String
action_name add = "add"
action_name dedup = "dedup"
action_name supersede = "supersede"
action_name conflict = "conflict"

abbrev is_settled_action : Action → Bool
is_settled_action add = false
is_settled_action supersede = false
is_settled_action dedup = true
is_settled_action conflict = true

-- A typed value that is there already, or that stands in an open conflict.
abbrev pub settled_target : Option SlotDecision → Option ℕ
settled_target none = none
settled_target (some d) = if is_settled_action d.action then d.target_fact_id else none

abbrev group_of : Option Fact → Option String
group_of none = none
group_of (some f) = if is_empty (value_or f.conflict_group "") then none else f.conflict_group

abbrev pub or_text : Option String → Option String → String → String
or_text a b c =
    if not (is_empty (value_or a ""))
    then value_or a ""
    else if not (is_empty (value_or b ""))
    then value_or b ""
    else c

module _ (service : Service) (context : ConnectionContext) (r : WriteRequest)
    (at : Surroundings) where
  unfoldable pub carry_existing : SlotDecision → ℕ → Exec Store Carried
  carry_existing d i = do
    found ← gets (λ (s : Store). find (has_fact_id i) s.facts)
    pure (record {
      result = existing_result i (action_name d.action);
      enqueue = none;
      conflict_id = if is_conflict d.action then group_of found else none;
    })

  abbrev pub resolution : SlotDecision → String → ℕ → ResolveRequest
  resolution d conflict_id i = record {
    conflict_id = conflict_id;
    resolution_fact_id = i;
    resolved_by = or_text r.asserted_by r.performed_by context.agent_id;
    reason = d.reason;
    resolved_at = some at.recorded_at;
    resolver_client_id = some context.client_id;
    resolver_session_id = some context.session_id;
    resolver_agent_id = some context.agent_id;
  }

  -- After the new value of the slot was persisted.
  unfoldable pub finish_state : SlotDecision → Action → Option String → ℕ → Exec Store (Unit {0})
  finish_state d supersede none i = finish_state_supersession d.target_fact_id i
  finish_state d supersede (some conflict_id) i = do
    add_conflict_member conflict_id i
    resolved ← resolve_state_conflict at.env (resolution d conflict_id i)
    pure tt
  finish_state d conflict none i = lift (raise runtime_error)
  finish_state d conflict (some conflict_id) i = add_conflict_member conflict_id i
  finish_state d add conflict_id i = pure tt
  finish_state d dedup conflict_id i = pure tt

  abbrev confidence_of : Option ExtractedTypedFields → Option ℕ
  confidence_of none = none
  confidence_of (some t) = some t.confidence

  -- A new value of a slot.
  unfoldable pub carry_state :
      SlotDecision → StateCandidate → Option ExtractedTypedFields → ℕ → Exec Store Carried
  unfolding prepare_state_mutation write_fact persist_state_candidate finish_state
  carry_state d c typed observation_id = do
    conflict_id ← prepare_state_mutation service at.env d at.recorded_at c.valid_from
    written ← write_fact service r observation_id
    persist_state_candidate written c conflict_id (confidence_of typed) at.env.utc_now
    finish_state d d.action conflict_id written.fact_id
    pure (record {
      result = record written { outcome = action_name d.action };
      enqueue = some written.fact_id;
      conflict_id = conflict_id;
    })

  unfoldable pub merge_or_keep :
      Option NearDuplicateCandidate → FactWriteResult → Exec Store (FactWriteResult × Option ℕ)
  unfolding merge_near_duplicate
  merge_or_keep none written = pure (written, some written.fact_id)
  merge_or_keep (some near) written = merge_near_duplicate written near r at.recorded_at

  unfoldable pub dispute_or_keep :
      Option UntypedContradiction → FactWriteResult → Exec Store (FactWriteResult × Option String)
  unfolding open_untyped_write_conflict
  dispute_or_keep none written = pure (written, none)
  dispute_or_keep (some m) written = do
    conflict_id ← open_untyped_write_conflict service at.env r m written.fact_id at.recorded_at
    pure (
      record written { outcome = "conflict"; existing_fact_id = some m.fact_id },
      some conflict_id,
    )

  unfoldable pub persist_typed :
      Option ExtractedTypedFields → FactWriteResult → Exec Store (Unit {0})
  unfolding persist_nonstate
  persist_typed none written = pure tt
  persist_typed (some t) written = persist_nonstate written t

  -- A new fact that is not typed state.
  unfoldable pub carry_untyped : Matches → Option ExtractedTypedFields → ℕ → Exec Store Carried
  unfolding write_fact merge_or_keep dispute_or_keep persist_typed
  carry_untyped found typed observation_id = do
    written ← write_fact service r observation_id
    merged ← merge_or_keep found.near written
    disputed ← dispute_or_keep found.contradiction merged.0
    persist_typed typed disputed.0
    pure (record { result = disputed.0; enqueue = merged.1; conflict_id = disputed.1 })

  abbrev pub carry_new :
      Option SlotDecision
      → Option StateCandidate
      → Matches
      → Option ExtractedTypedFields
      → ℕ
      → Exec Store Carried
  carry_new (some d) (some c) found typed observation_id = carry_state d c typed observation_id
  carry_new (some d) none found typed observation_id = carry_untyped found typed observation_id
  carry_new none candidate found typed observation_id = carry_untyped found typed observation_id

  abbrev pub carry_fresh :
      Option SlotDecision
      → Option StateCandidate
      → Option Fact
      → Matches
      → Option ExtractedTypedFields
      → ℕ
      → Exec Store Carried
  carry_fresh decision candidate (some f) found typed observation_id =
      pure
        (record { result = existing_result f.fact_id "dedup"; enqueue = none; conflict_id = none })
  carry_fresh decision candidate none found typed observation_id =
      carry_new decision candidate found typed observation_id

  abbrev pub carry_by :
      Option ℕ
      → Option SlotDecision
      → Option StateCandidate
      → Matches
      → Option ExtractedTypedFields
      → ℕ
      → Exec Store Carried
  carry_by (some i) (some d) candidate found typed observation_id = carry_existing d i
  carry_by (some i) none candidate found typed observation_id =
      carry_fresh none candidate found.duplicate found typed observation_id
  carry_by none decision candidate found typed observation_id =
      carry_fresh decision candidate found.duplicate found typed observation_id

  unfoldable pub carry_out : Plan → Matches → Option ExtractedTypedFields → ℕ → Exec Store Carried
  unfolding carry_existing carry_state carry_untyped
  carry_out plan found typed observation_id =
      carry_by (settled_target plan.state_decision) plan.state_decision plan.candidate found typed
        observation_id
