-- ===== src/WriteService/Frames.antt =====
-- What every statement on the tables of facts and conflicts keeps, and the writer of facts, the
-- carrying out of a write keeps.
use holographic_plus.Base.{ℕ, String, Bool, true, false, Option, none, some, List, [], ◌∷◌}
use holographic_plus.Keeps.{Keeps, keeps_rules}
use holographic_plus.FactStore.{Fact, Store}
use holographic_plus.Policy.Grants.{ConnectionContext}
use holographic_plus.Policy.Writes.{WriteRequest}
use holographic_plus.StateSlots.Candidate.{
  StateCandidate, SlotDecision, Action, add, dedup, supersede, conflict,
}
use holographic_plus.StateSlots.Conflicts.{Ambient}
use holographic_plus.StateSlots.Frames.{
  KeptByStatements, statement_rules, open_state_conflict-kept, open_untyped_conflict-kept,
  add_conflict_member-kept, add_untyped_conflict_member-kept, resolve_state_conflict-kept,
}
use holographic_plus.WriteService.Rows.{
  Service, Surroundings, FactWriteResult, NearDuplicateCandidate,
}
use holographic_plus.WriteService.Typed.{ExtractedTypedFields}
use holographic_plus.WriteService.Plan.{Plan}
use holographic_plus.WriteService.Slots.{
  retire_target, find_or_open, prepare_by, prepare_state_mutation, persist_state_candidate,
  persist_nonstate, finish_state_supersession,
}
use holographic_plus.WriteService.Untyped.{
  UntypedContradiction, open_untyped_write_conflict, supersede_near_duplicate, merge_by,
  merge_near_duplicate, supersede_if_requested, authorize_fact_scope,
}
use holographic_plus.WriteService.Carry.{
  write_fact, Matches, settled_target, carry_existing, finish_state, carry_state, merge_or_keep,
  dispute_or_keep, persist_typed, carry_untyped, carry_new, carry_fresh, carry_by, carry_out,
}
use holographic_plus.WriteService.Write.{supersede_requested}

ruleset conflict_rules = (
  statement_rules, open_state_conflict-kept, open_untyped_conflict-kept, add_conflict_member-kept,
  add_untyped_conflict_member-kept, resolve_state_conflict-kept,
)

module _ {P : Store → Type 0} (k : KeptByStatements P) where
  retire_target-kept :
      (d : SlotDecision) (now : String) (until : Option String) (i : Option ℕ)
      → Keeps P (retire_target d now until i)
  unfolding retire_target
  retire_target-kept d now until none = search conflict_rules depth 10
  retire_target-kept d now until (some i) = search conflict_rules depth 10

  find_or_open-kept :
      (service : Service) (env : Ambient) (d : SlotDecision) (now : String) (groups : List String)
      → Keeps P (find_or_open service env d now groups)
  unfolding find_or_open
  find_or_open-kept service env d now [] = search conflict_rules depth 10
  find_or_open-kept service env d now (group ∷ groups) = search conflict_rules depth 10

  prepare_by-kept :
      (service : Service) (env : Ambient) (d : SlotDecision) (now : String) (until : Option String)
      (action : Action)
      → Keeps P (prepare_by service env d now until action)
  unfolding prepare_by
  prepare_by-kept service env d now until supersede =
      retire_target-kept d now until d.target_fact_id
  prepare_by-kept service env d now until conflict =
      search (keeps_rules, find_or_open-kept) depth 10
  prepare_by-kept service env d now until add = search keeps_rules
  prepare_by-kept service env d now until dedup = search keeps_rules

  prepare_state_mutation-kept :
      (service : Service) (env : Ambient) (d : SlotDecision) (now : String) (until : Option String)
      → Keeps P (prepare_state_mutation service env d now until)
  unfolding prepare_state_mutation
  prepare_state_mutation-kept service env d now until =
      prepare_by-kept service env d now until d.action

  persist_state_candidate-kept :
      (result : FactWriteResult) (c : StateCandidate) (conflict_id : Option String)
      (confidence : Option ℕ) (now : String)
      → Keeps P (persist_state_candidate result c conflict_id confidence now)
  unfolding persist_state_candidate
  persist_state_candidate-kept result c conflict_id confidence now = search conflict_rules depth 12

  persist_nonstate-kept :
      (result : FactWriteResult) (t : ExtractedTypedFields) → Keeps P (persist_nonstate result t)
  unfolding persist_nonstate
  persist_nonstate-kept result t = search conflict_rules depth 14

  finish_state_supersession-kept :
      (i : Option ℕ) (new_id : ℕ) → Keeps P (finish_state_supersession i new_id)
  unfolding finish_state_supersession
  finish_state_supersession-kept none new_id = search conflict_rules
  finish_state_supersession-kept (some i) new_id = search conflict_rules depth 10

  open_untyped_write_conflict-kept :
      (service : Service) (env : Ambient) (r : WriteRequest) (m : UntypedContradiction) (new_id : ℕ)
      (now : String)
      → Keeps P (open_untyped_write_conflict service env r m new_id now)
  unfolding open_untyped_write_conflict
  open_untyped_write_conflict-kept service env r m new_id now = search conflict_rules depth 16

  supersede_near_duplicate-kept :
      (i j : ℕ) (now : String) → Keeps P (supersede_near_duplicate i j now)
  unfolding supersede_near_duplicate
  supersede_near_duplicate-kept i j now = search conflict_rules depth 10

  merge_by-kept :
      (b : Bool) (inserted : FactWriteResult) (near : NearDuplicateCandidate) (now : String)
      → Keeps P (merge_by b inserted near now)
  unfolding merge_by
  merge_by-kept true inserted near now =
      search (keeps_rules, supersede_near_duplicate-kept) depth 10
  merge_by-kept false inserted near now =
      search (keeps_rules, supersede_near_duplicate-kept) depth 10

  merge_near_duplicate-kept :
      (inserted : FactWriteResult) (near : NearDuplicateCandidate) (r : WriteRequest) (now : String)
      → Keeps P (merge_near_duplicate inserted near r now)
  unfolding merge_near_duplicate
  merge_near_duplicate-kept inserted near r now = search (keeps_rules, merge_by-kept) depth 12

  supersede_if_requested-kept :
      (old : Option ℕ) (new_id : ℕ) (now : String) → Keeps P (supersede_if_requested old new_id now)
  unfolding supersede_if_requested
  supersede_if_requested-kept none new_id now = search keeps_rules
  supersede_if_requested-kept (some old) new_id now = search conflict_rules depth 20

  pub authorize_fact_scope-kept : (i : ℕ) (scope : String) → Keeps P (authorize_fact_scope i scope)
  unfolding authorize_fact_scope
  authorize_fact_scope-kept i scope = search keeps_rules depth 8

  pub supersede_requested-kept :
      (service : Service) (at : Surroundings) (context : ConnectionContext) (r : WriteRequest)
      (candidate : Option StateCandidate) (i : ℕ)
      → Keeps P (supersede_requested service at context r candidate i)
  unfolding supersede_requested
  supersede_requested-kept service at context r candidate i =
      search (keeps_rules, supersede_if_requested-kept) depth 8

-- With the writer of facts, for one request.
module _ {P : Store → Type 0} (k : KeptByStatements P) (service : Service)
    (context : ConnectionContext) (r : WriteRequest) (at : Surroundings)
    (writes : (observation_id : ℕ) → Keeps P (write_fact service r observation_id)) where
  carry_existing-kept :
      (d : SlotDecision) (i : ℕ) → Keeps P (carry_existing service context r at d i)
  unfolding carry_existing
  carry_existing-kept d i = search keeps_rules depth 8

  finish_state-kept :
      (d : SlotDecision) (action : Action) (conflict_id : Option String) (i : ℕ)
      → Keeps P (finish_state service context r at d action conflict_id i)
  unfolding finish_state
  finish_state-kept d supersede none i = finish_state_supersession-kept k d.target_fact_id i
  finish_state-kept d supersede (some conflict_id) i = search conflict_rules depth 10
  finish_state-kept d conflict none i = search keeps_rules
  finish_state-kept d conflict (some conflict_id) i = search conflict_rules
  finish_state-kept d add conflict_id i = search keeps_rules
  finish_state-kept d dedup conflict_id i = search keeps_rules

  carry_state-kept :
      (d : SlotDecision) (c : StateCandidate) (typed : Option ExtractedTypedFields)
      (observation_id : ℕ)
      → Keeps P (carry_state service context r at d c typed observation_id)
  unfolding carry_state
  carry_state-kept d c typed observation_id =
      search
        (keeps_rules, prepare_state_mutation-kept, persist_state_candidate-kept, finish_state-kept)
        depth 14

  merge_or_keep-kept :
      (near : Option NearDuplicateCandidate) (written : FactWriteResult)
      → Keeps P (merge_or_keep service context r at near written)
  unfolding merge_or_keep
  merge_or_keep-kept none written = search keeps_rules
  merge_or_keep-kept (some near) written = merge_near_duplicate-kept k written near r at.recorded_at

  dispute_or_keep-kept :
      (m : Option UntypedContradiction) (written : FactWriteResult)
      → Keeps P (dispute_or_keep service context r at m written)
  unfolding dispute_or_keep
  dispute_or_keep-kept none written = search keeps_rules
  dispute_or_keep-kept (some m) written =
      search (keeps_rules, open_untyped_write_conflict-kept) depth 8

  persist_typed-kept :
      (typed : Option ExtractedTypedFields) (written : FactWriteResult)
      → Keeps P (persist_typed service context r at typed written)
  unfolding persist_typed
  persist_typed-kept none written = search keeps_rules
  persist_typed-kept (some t) written = persist_nonstate-kept k written t

  carry_untyped-kept :
      (found : Matches) (typed : Option ExtractedTypedFields) (observation_id : ℕ)
      → Keeps P (carry_untyped service context r at found typed observation_id)
  unfolding carry_untyped
  carry_untyped-kept found typed observation_id =
      search (keeps_rules, merge_or_keep-kept, dispute_or_keep-kept, persist_typed-kept) depth 14

  carry_new-kept :
      (d : Option SlotDecision) (c : Option StateCandidate) (found : Matches)
      (typed : Option ExtractedTypedFields) (observation_id : ℕ)
      → Keeps P (carry_new service context r at d c found typed observation_id)
  carry_new-kept (some d) (some c) found typed observation_id =
      carry_state-kept d c typed observation_id
  carry_new-kept (some d) none found typed observation_id =
      carry_untyped-kept found typed observation_id
  carry_new-kept none c found typed observation_id = carry_untyped-kept found typed observation_id

  carry_fresh-kept :
      (d : Option SlotDecision) (c : Option StateCandidate) (duplicate : Option Fact)
      (found : Matches) (typed : Option ExtractedTypedFields) (observation_id : ℕ)
      → Keeps P (carry_fresh service context r at d c duplicate found typed observation_id)
  carry_fresh-kept d c (some f) found typed observation_id = search keeps_rules
  carry_fresh-kept d c none found typed observation_id =
      carry_new-kept d c found typed observation_id

  carry_by-kept :
      (i : Option ℕ) (d : Option SlotDecision) (c : Option StateCandidate) (found : Matches)
      (typed : Option ExtractedTypedFields) (observation_id : ℕ)
      → Keeps P (carry_by service context r at i d c found typed observation_id)
  carry_by-kept (some i) (some d) c found typed observation_id = carry_existing-kept d i
  carry_by-kept (some i) none c found typed observation_id =
      carry_fresh-kept none c found.duplicate found typed observation_id
  carry_by-kept none d c found typed observation_id =
      carry_fresh-kept d c found.duplicate found typed observation_id

  pub carry_out-kept :
      (plan : Plan) (found : Matches) (typed : Option ExtractedTypedFields) (observation_id : ℕ)
      → Keeps P (carry_out service context r at plan found typed observation_id)
  unfolding carry_out
  carry_out-kept plan found typed observation_id =
      carry_by-kept (settled_target plan.state_decision) plan.state_decision plan.candidate found
        typed observation_id
