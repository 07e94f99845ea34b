-- ===== src/WriteService/Guarded.antt =====
-- What an admitted write may replace.
use holographic_plus.Base.{
  ℕ, ◌≡◌, ◌≤◌, ◌<◌, refl, ap, sym, ◌∙◌, Bool, true, false, ◌&&◌, Option, none, some, List, [], ◌∷◌,
  find, arith, str_eq, ◌==◌, value_or, Bool-cases, inl, inr, ok, >>=-eq-ok,
}
use holographic_plus.FactStore.{Fact, Store, has_fact_id, default_authority}
use holographic_plus.Policy.Grants.{ConnectionContext}
use holographic_plus.Policy.Writes.{
  WriteRequest, PolicyDecision, evaluate_write, claims_correction, is_human_status,
}
use holographic_plus.StateSlots.Candidate.{StateCandidate, SlotDecision}
use holographic_plus.StateSlots.Decide.{decide_state_write}
use holographic_plus.StateSlots.Conflicts.{Ambient, contains_id}
use holographic_plus.WriteService.Rows.{Service}
use holographic_plus.WriteService.Plan.{
  Plan, is_supersede, judge_target, judge_found, or_decision, supersession_policy, admission,
  sensitive_fields, effective, resolve_by_human, restrict_resolver, resolver, guard_all,
  guard_target, guard_supersession, plan_admitted, plan_by, plan_write,
}

-- The fact is in the scope of the request; where a human corrected it, the request is a human's; and
-- its authority is no greater than the given one.
pub record IsReplaceable (r : WriteRequest) (authority i : ℕ) (facts : List Fact) : Type 0 where
  pub fact : Fact
  pub is_there : find (λ f. has_fact_id i f && str_eq f.scope r.scope) facts ≡ some fact
  pub is_unprotected : is_human_status fact.correction_status ≡ true → claims_correction r ≡ true
  pub is_outranked : value_or fact.source_authority default_authority ≤ authority

judge_lem :
    (r : WriteRequest) (authority : ℕ) (f : Fact)
    → judge_target r authority f ≡ none
    → (is_human_status f.correction_status ≡ true → claims_correction r ≡ true)
      × (value_or f.source_authority default_authority ≤ authority)
unfolding judge_target
judge_lem r authority f h = (λ human. ground arith, ground arith)

found_lem :
    (r : WriteRequest) (authority i : ℕ) (facts : List Fact) (found : Option Fact)
    → find (λ f. has_fact_id i f && str_eq f.scope r.scope) facts ≡ found
    → judge_found r authority found ≡ none
    → IsReplaceable r authority i facts
found_lem r authority i facts none e h = absurd (cc h)
found_lem r authority i facts (some f) e h =
    let (unprotected, outranked) = judge_lem r authority f h in
    record { fact = f; is_there = e; is_unprotected = unprotected; is_outranked = outranked }

policy_lem :
    (r : WriteRequest) (i authority : ℕ) (facts : List Fact)
    → 0 < i
    → supersession_policy r (some i) (some authority) facts ≡ none
    → IsReplaceable r authority i facts
unfolding supersession_policy
policy_lem r i authority facts positive h =
    let nonzero : (i == 0) ≡ false = ground arith in
    found_lem r authority i facts _ refl (rw (nonzero, supersession_policy) at h)

or_first : (a b : Option PolicyDecision) → or_decision a b ≡ none → (a ≡ none) × (b ≡ none)
or_first none b h = (refl, h)
or_first (some d) b h = cc

guard_all_lem :
    (r : WriteRequest) (authority : ℕ) (facts : List Fact) (ids : List ℕ) (i : ℕ)
    → 0 < i
    → guard_all r authority facts ids ≡ none
    → contains_id ids i ≡ true
    → IsReplaceable r authority i facts
unfolding guard_all contains_id
guard_all_lem r authority facts [] i positive h there = absurd (cc there)
guard_all_lem r authority facts (k ∷ ids) i positive h there =
    let (first, rest) =
      or_first (supersession_policy r (some k) (some authority) facts)
        (guard_all r authority facts ids) h in
    elim (Bool-cases (k == i)) [
      | inl here ↦
          let same : k ≡ i = ground arith in
          policy_lem r i authority facts positive (rw same at first)
      | inr later ↦ guard_all_lem r authority facts ids i positive rest (ground (arith, later))
    ]

-- The target of a decision, or else one of the values that it names.
unfoldable pub is_replaced_by : List ℕ → Option ℕ → ℕ → Bool
is_replaced_by ids none i = contains_id ids i
is_replaced_by ids (some k) i = k == i

guard_target_lem :
    (r : WriteRequest) (facts : List Fact) (c : StateCandidate) (ids : List ℕ) (target : Option ℕ)
    (i : ℕ)
    → 0 < i
    → claims_correction r ≡ false
    → guard_target r facts c ids target ≡ none
    → is_replaced_by ids target i ≡ true
    → IsReplaceable r c.source_authority i facts
unfolding guard_target is_replaced_by
guard_target_lem r facts c ids none i positive automatic h there =
    let guards = rw automatic at h in
    guard_all_lem r c.source_authority facts ids i positive
      (or_first (guard_all r c.source_authority facts ids) _ guards).0 there
guard_target_lem r facts c ids (some k) i positive automatic h there =
    let same : k ≡ i = ground arith in
    policy_lem r i c.source_authority facts positive (rw same at h)

planned_lem :
    (service : Service) (env : Ambient) (context : ConnectionContext) (r : WriteRequest)
    (store : Store) (candidate : Option StateCandidate) (first : Option PolicyDecision)
    {plan : Plan} {d : SlotDecision}
    → plan_by service env context r store candidate first ≡ ok plan
    → plan.decision ≡ none
    → plan.state_decision ≡ some d
    → (c : StateCandidate) × (plan.candidate ≡ some c)
      × (guard_supersession r store.facts c d ≡ none)
unfolding plan_admitted
planned_lem service env context r store candidate (some x) {plan} {d} h allowed state = cc
planned_lem service env context r store none none {plan} {d} h allowed state = cc
planned_lem service env context r store (some c) none {plan} {d} h allowed state =
    let (decided, e, rest) = >>=-eq-ok (decide_state_write env.from_iso store c) _ h in
    let last = restrict_resolver (resolver service env context r) (
      resolve_by_human (claims_correction r) (resolver service env context r) store.facts
        decided) in
    let planned : Plan = record {
      decision = guard_supersession r store.facts c last;
      candidate = some c;
      state_decision = some last;
    } in
    let same : planned ≡ plan = cc rest in
    let d_is : last ≡ d = cc (ap (λ (p : Plan). p.state_decision) same, state) in
    (
      c,
      ap (λ (p : Plan). p.candidate) {x = plan} {y = planned} (sym same),
      rw (← d_is) (ap (λ (p : Plan). p.decision) {x = planned} {y = plan} same ∙ allowed),
    )

-- Where a typed write by automation is admitted with a decision that supersedes, each fact with a
-- positive id that it replaces, its target or else the values of the conflict that it resolves, is
-- in the scope of the request, is not corrected or confirmed by a human, and has no greater
-- authority than the candidate.
pub automation_spares_protected :
    (service : Service) (env : Ambient) (context : ConnectionContext) (r : WriteRequest)
    (candidate : Option StateCandidate) (store : Store) {plan : Plan} {d : SlotDecision} (i : ℕ)
    → plan_write service env context r candidate store ≡ ok plan
    → plan.decision ≡ none
    → plan.state_decision ≡ some d
    → is_supersede d.action ≡ true
    → claims_correction r ≡ false
    → 0 < i
    → is_replaced_by d.current_fact_ids d.target_fact_id i ≡ true
    → (c : StateCandidate) × (f : Fact) × (plan.candidate ≡ some c)
      × (find (λ g. has_fact_id i g && str_eq g.scope r.scope) store.facts ≡ some f)
      × (is_human_status f.correction_status ≡ false)
      × (value_or f.source_authority default_authority ≤ c.source_authority)
unfolding plan_write guard_supersession
automation_spares_protected service env context r candidate store {plan} {d} i h allowed state acts
      automatic positive there =
    let (first, e, rest) =
      >>=-eq-ok
        (evaluate_write service.shape_found service.screens service.policy r
          (some context.client_id) (sensitive_fields candidate))
        _ h in
    let (c, c_is, guards) =
      planned_lem service env context r store (effective r candidate)
        (admission context r store.facts first) {plan = plan} {d = d} rest allowed state in
    let spared : IsReplaceable r c.source_authority i store.facts =
      guard_target_lem r store.facts c d.current_fact_ids d.target_fact_id i positive automatic
        (rw acts at guards) there in
    let human : is_human_status spared.fact.correction_status ≡ false =
      elim (Bool-cases (is_human_status spared.fact.correction_status)) [
        | inr free ↦ free
        | inl protected ↦ absurd (cc (spared.is_unprotected protected))
      ] in
    (c, spared.fact, c_is, spared.is_there, human, spared.is_outranked)
