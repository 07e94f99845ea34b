-- ===== src/WriteService/Plan.antt =====
-- What a write decides before it changes anything: the first part of the transaction of `write`, and
-- `_supersession_policy`.
use holographic_plus.Base.{
  ℕ, String, Bool, true, false, not, ◌&&◌, Option, none, some, List, [], ◌∷◌, ◌++◌, str_eq, text_is,
  ltb, ◌==◌, is_none, is_some, is_empty, value_or, find, if◌then◌else◌, Result, ok, ◌>>=◌, length,
}
use holographic_plus.FactStore.{Fact, Store, has_fact_id, default_authority}
use holographic_plus.Policy.Scopes.{is_one_of, scope_authorized}
use holographic_plus.Policy.Grants.{ConnectionContext, can_resolve_conflicts}
use holographic_plus.Policy.Writes.{
  WriteRequest, PolicyDecision, rejected, needs_review, evaluate_write, claims_correction,
  is_human_status,
}
use holographic_plus.StateSlots.Candidate.{
  StateCandidate, SlotDecision, Action, supersede, conflict,
}
use holographic_plus.StateSlots.Decide.{decide_state_write}
use holographic_plus.StateSlots.Conflicts.{Ambient, contains_id}
use holographic_plus.WriteService.Rows.{Service}

abbrev decide_review : String → Option PolicyDecision
decide_review reason = some (record { outcome = needs_review; reason = reason })

abbrev decide_reject : String → Option PolicyDecision
decide_reject reason = some (record { outcome = rejected; reason = reason })

-- `target_id or request.supersede_fact_id`
abbrev pub or_id : Option ℕ → Option ℕ → Option ℕ
or_id none other = other
or_id (some i) other = if i == 0 then other else some i

-- The rules for a target that is there.
unfoldable pub judge_target : WriteRequest → ℕ → Fact → Option PolicyDecision
unfolding claims_correction default_authority
judge_target r authority f =
    if is_some r.supersede_fact_id && text_is f.memory_kind "state"
    then decide_review "typed state requires state-slot supersession"
    else if is_some r.supersede_fact_id && is_some f.conflict_group
    then decide_review "open-conflict members cannot be explicitly superseded"
    else if is_human_status f.correction_status && not (claims_correction r)
    then decide_review "target is protected by human correction"
    else if ltb authority (value_or f.source_authority default_authority)
    then decide_review "target has higher source authority"
    else none

abbrev pub judge_found : WriteRequest → ℕ → Option Fact → Option PolicyDecision
judge_found r authority none = decide_review "supersession target is unavailable"
judge_found r authority (some f) = judge_target r authority f

unfoldable pub supersession_policy :
    WriteRequest → Option ℕ → Option ℕ → List Fact → Option PolicyDecision
unfolding judge_target
supersession_policy r target_id candidate_authority facts =
    elim (or_id target_id r.supersede_fact_id) [
      | none ↦ none
      | some i ↦
          judge_found r (value_or candidate_authority r.source_authority)
            (find (λ f. has_fact_id i f && str_eq f.scope r.scope) facts)
    ]

abbrev pub option_list : Option String → List String
option_list none = []
option_list (some s) = if is_empty s then [] else s ∷ []

-- The parts of a candidate that are screened with the request.
abbrev pub sensitive_fields : Option StateCandidate → List String
sensitive_fields none = []
sensitive_fields (some c) =
    option_list (some c.subject_key)
    ++ option_list (some c.predicate_key)
    ++ option_list c.object_value

-- `decision if decision is not None else …`
abbrev pub or_decision : Option PolicyDecision → Option PolicyDecision → Option PolicyDecision
or_decision none later = later
or_decision (some d) later = some d

unfoldable pub admission :
    ConnectionContext → WriteRequest → List Fact → Option PolicyDecision → Option PolicyDecision
unfolding scope_authorized supersession_policy
admission context r facts decision =
    let unscoped =
      if scope_authorized r.scope context.access_scopes
      then none
      else decide_reject "requested write scope is not server-authorized" in
    let insensitive =
      if str_eq r.sensitivity "sensitive" && not (is_one_of context.access_scopes "sensitive")
      then decide_reject "sensitive durable write is not authorized"
      else none in
    or_decision decision
      (or_decision unscoped (or_decision insensitive (supersession_policy r none none facts)))

-- The candidate with the time of observation, where it has none.
unfoldable pub effective : WriteRequest → Option StateCandidate → Option StateCandidate
effective r none = none
effective r (some c) =
    if is_none c.valid_from
      && not (is_empty (value_or r.observed_at ""))
      && not (str_eq r.source_type "automatic_extraction")
    then some (record c { valid_from = r.observed_at })
    else some c

-- The distinct conflict groups of some facts.
unfoldable pub groups_of : List ℕ → List Fact → List String
groups_of ids [] = []
groups_of ids (f ∷ facts) =
    let rest = groups_of ids facts in
    elim f.conflict_group [
      | none ↦ rest
      | some group ↦
          if contains_id ids f.fact_id && not (is_one_of rest group) then group ∷ rest else rest
    ]

abbrev pub is_conflict : Action → Bool
is_conflict conflict = true
is_conflict _ = false

abbrev pub is_supersede : Action → Bool
is_supersede supersede = true
is_supersede _ = false

-- A human correction by a client that may resolve conflicts resolves the one open conflict.
unfoldable pub resolve_by_human : Bool → Bool → List Fact → SlotDecision → SlotDecision
unfolding groups_of
resolve_by_human human resolver facts d =
    if is_conflict d.action && human && resolver && length (groups_of d.current_fact_ids facts) == 1
    then record d {
      action = supersede;
      target_fact_id = none;
      reason = "explicit human correction resolves open conflict";
    }
    else d

-- A client that may not resolve conflicts only joins them.
unfoldable pub restrict_resolver : Bool → SlotDecision → SlotDecision
restrict_resolver resolver d =
    if is_supersede d.action && is_none d.target_fact_id && not resolver
    then record d {
      action = conflict;
      reason = "client is not authorized to resolve open conflict";
    }
    else d

-- The first decision against replacing one of the facts.
unfoldable pub guard_all : WriteRequest → ℕ → List Fact → List ℕ → Option PolicyDecision
unfolding supersession_policy
guard_all r authority facts [] = none
guard_all r authority facts (i ∷ ids) =
    or_decision (supersession_policy r (some i) (some authority) facts)
      (guard_all r authority facts ids)

-- For the target of a decision that supersedes, or else the values that it names.
unfoldable pub guard_target :
    WriteRequest → List Fact → StateCandidate → List ℕ → Option ℕ → Option PolicyDecision
unfolding guard_all supersession_policy claims_correction
guard_target r facts c ids none =
    or_decision (if claims_correction r then none else guard_all r c.source_authority facts ids)
      (supersession_policy r none (some c.source_authority) facts)
guard_target r facts c ids (some i) = supersession_policy r (some i) (some c.source_authority) facts

-- The last word on a state decision that supersedes.
unfoldable pub guard_supersession :
    WriteRequest → List Fact → StateCandidate → SlotDecision → Option PolicyDecision
unfolding guard_target
guard_supersession r facts c d =
    if is_supersede d.action
    then guard_target r facts c d.current_fact_ids d.target_fact_id
    else none

pub record Plan : Type 0 where
  pub decision : Option PolicyDecision
  pub candidate : Option StateCandidate
  pub state_decision : Option SlotDecision

module _ (service : Service) (env : Ambient) (context : ConnectionContext) (r : WriteRequest) where
  abbrev pub resolver : Bool
  resolver = can_resolve_conflicts service.policy context.client_id

  -- For a write that the policy admits.
  unfoldable pub plan_admitted : Store → Option StateCandidate → Result Plan
  unfolding decide_state_write resolve_by_human restrict_resolver guard_supersession
  plan_admitted store none =
      ok (record { decision = none; candidate = none; state_decision = none })
  plan_admitted store (some c) = do
    decided ← decide_state_write env.from_iso store c
    let d =
        restrict_resolver resolver
          (resolve_by_human (claims_correction r) resolver store.facts decided)
    ok (record {
      decision = guard_supersession r store.facts c d;
      candidate = some c;
      state_decision = some d;
    })

  abbrev pub plan_by : Store → Option StateCandidate → Option PolicyDecision → Result Plan
  plan_by store candidate (some d) =
      ok (record { decision = some d; candidate = candidate; state_decision = none })
  plan_by store candidate none = plan_admitted store candidate

  unfoldable pub plan_write : Option StateCandidate → Store → Result Plan
  unfolding evaluate_write admission effective plan_admitted
  plan_write candidate store = do
    decision ←
        evaluate_write service.shape_found service.screens service.policy r (some context.client_id)
          (sensitive_fields candidate)
    plan_by store (effective r candidate) (admission context r store.facts decision)
