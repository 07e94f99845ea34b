-- ===== src/WriteService/Attributed.antt =====
-- A write that returns either changes no memory or leaves an attributed fact.
use holographic_plus.Base.{
  ℕ, ◌≡◌, refl, ap, sym, subst, ◌⊎◌, String, Bool, true, false, Option, none, some, any, Bool-cases,
  inl, inr, Result, ok, raise,
}
use holographic_plus.Exec.{>>=-returns, gets-returns, check-returns, pure}
use holographic_plus.Keeps.{Keeps, keeps_rules}
use holographic_plus.FactStore.{Store}
use holographic_plus.Policy.Grants.{ConnectionContext}
use holographic_plus.Policy.Writes.{WriteRequest, PolicyDecision}
use holographic_plus.StateSlots.Candidate.{StateCandidate}
use holographic_plus.WriteService.Rows.{
  Vault, Service, Surroundings, LogRow, WriteOutcome, Query, is_attached,
}
use holographic_plus.WriteService.Log.{
  load_prior, refuses_log, insert_log, factless_decision_is_durable, record_factless_decision,
  settle_factless,
}
use holographic_plus.WriteService.Typed.{ExtractedTypedFields}
use holographic_plus.WriteService.Plan.{Plan}
use holographic_plus.WriteService.Untyped.{authorize_fact_scope}
use holographic_plus.WriteService.Carry.{Matches, Carried, match_untyped}
use holographic_plus.WriteService.Write.{
  digest, details, result_row, supersede_requested, conclude, perform, perform_or_refuse, write_new,
  replay_or_write, write_body, write,
}
use holographic_plus.WriteService.Replay.{reads-returns}
use holographic_plus.WriteService.Retry.{write_lem}
use holographic_plus.WriteService.Effects.{
  SameMemory, same, register_client-SameMemory, register_session-SameMemory,
  settle_factless-SameMemory, IsAttributed, InScope, on_store-returns, authorized-InScope,
  superseded-InScope, attached,
}

-- No memory changed: the write was answered from the log, or refused.
pub record IsUnchanged (o : WriteOutcome) (before after : Vault) : Type 0 where
  pub memory : SameMemory before after
  pub reason : (o.replayed ≡ true) ⊎ (o.fact_id ≡ none)

inserted_log :
    (row : LogRow) (v : Vault) {u : Unit {0}} {v' : Vault}
    → insert_log row v ≡ (ok u, v')
    → (v'.store ≡ v.store) × (v'.provenance ≡ v.provenance)
unfolding insert_log
inserted_log row v {u} {v'} h = elim (Bool-cases (refuses_log row v)) [
  | inl refused ↦ absurd (cc (rw refused at h))
  | inr fine ↦
      let state = ap (λ (x : Result (Unit {0}) × Vault). x.1) (rw fine at h) in
      rw (← state) (refl, refl)
]

abbrev fact_of : Result WriteOutcome → Option ℕ
fact_of (ok o) = o.fact_id
fact_of (raise e) = none

abbrev observation_of : Result WriteOutcome → Option ℕ
observation_of (ok o) = o.observation_id
observation_of (raise e) = none

abbrev replayed_of : Result WriteOutcome → Bool
replayed_of (ok o) = o.replayed
replayed_of (raise e) = false

module _ (service : Service) (at : Surroundings) (context : ConnectionContext) (r : WriteRequest)
    (candidate : Option StateCandidate) where
  requested-InScope :
      (i j : ℕ) (scope : String)
      → Keeps (InScope i scope) (supersede_requested service at context r candidate j)
  unfolding supersede_requested
  requested-InScope i j scope = search (keeps_rules, superseded-InScope) depth 8

  conclude-IsAttributed :
      (plan : Plan) (found : Matches) (carried : Carried) (observation_id : ℕ) (v : Vault)
      {o : WriteOutcome} {v' : Vault}
      → conclude service at context r candidate plan found carried observation_id v ≡ (ok o, v')
      → IsAttributed r o v'
  unfolding conclude pure
  conclude-IsAttributed plan found carried observation_id v {o} {v'} h =
      let i = carried.result.fact_id in
      let (a1, v1, e1, h1) = >>=-returns _ _ v h in
      let (a2, v2, e2, h2) = >>=-returns _ _ v1 h1 in
      let (a3, v3, e3, h3) = >>=-returns _ _ v2 h2 in
      let (superseded, v4, e4, h4) = >>=-returns _ _ v3 h3 in
      let (a5, v5, e5, h5) = >>=-returns _ _ v4 h4 in
      let (s2, m2, at2) = on_store-returns (authorize_fact_scope i r.scope) v1 e2 in
      let (supported, store3) = attached i observation_id r at.recorded_at v2 e3 in
      let (s4, m4, at4) =
        on_store-returns (supersede_requested service at context r candidate i) v3 e4 in
      let row =
        result_row service context r (digest service at context r candidate) at observation_id
          carried.result
          (service.add_details carried.result.detail_json
            (details r plan.state_decision found carried superseded)) in
      let (store5, provenance5) = inserted_log row v4 e5 in
      let last : v5 ≡ v' = ap (λ (x : Result WriteOutcome × Vault). x.1) h5 in
      let scope2 : InScope i r.scope v2.store = rw at2 (authorized-InScope i r.scope v1.store m2) in
      let scope3 : InScope i r.scope v3.store = rw store3 scope2 in
      let scope4 : InScope i r.scope s4 =
        subst (λ (x : Result Bool × Store). InScope i r.scope x.1) m4
          ((requested-InScope i i r.scope).kept v3.store scope3) in
      let (f, there, in_scope) : InScope i r.scope v5.store = rw (store5, at4) scope4 in
      let held : any (is_attached i observation_id r.relation) v5.provenance ≡ true =
        rw (provenance5, at4) supported in
      rw (← last) (record {
        fact_id = i;
        observation_id = observation_id;
        is_result = ap (λ (x : Result WriteOutcome × Vault). fact_of x.0) (sym h5);
        is_observed = ap (λ (x : Result WriteOutcome × Vault). observation_of x.0) (sym h5);
        fact = f;
        is_there = there;
        in_scope = in_scope;
        is_supported = held;
      })

  perform-IsAttributed :
      (plan : Plan) (typed : Option ExtractedTypedFields) (query : Query) (v : Vault)
      {o : WriteOutcome} {v' : Vault}
      → perform service at context r candidate plan typed query v ≡ (ok o, v')
      → IsAttributed r o v'
  unfolding perform
  perform-IsAttributed plan typed query v {o} {v'} h =
      let (i, v1, e1, h1) = >>=-returns _ _ v h in
      let found = match_untyped service at.env r candidate typed query v1.store.facts in
      let (carried, v2, e2, h2) = >>=-returns _ _ v1 (gets-returns _ _ v1 h1) in
      conclude-IsAttributed plan found carried i v2 h2

  settle-factless :
      (d : PolicyDecision) (v : Vault) {o : WriteOutcome} {v' : Vault}
      → settle_factless service context r (digest service at context r candidate) at d v
        ≡ (ok o, v')
      → o.fact_id ≡ none
  unfolding settle_factless record_factless_decision pure
  settle-factless d v {o} {v'} h = elim (Bool-cases (factless_decision_is_durable d)) [
    | inl durable ↦
        let (u, w, e, k) = >>=-returns _ _ v (rw durable at h) in
        ap (λ (x : Result WriteOutcome × Vault). fact_of x.0) (sym k)
    | inr ephemeral ↦
        ap (λ (x : Result WriteOutcome × Vault). fact_of x.0) (sym (rw ephemeral at h))
  ]

  refuse_effects :
      (v0 : Vault) (plan : Plan) (d : Option PolicyDecision) (typed : Option ExtractedTypedFields)
      (query : Query) (v : Vault) {o : WriteOutcome} {v' : Vault}
      → SameMemory v0 v
      → perform_or_refuse service at context r candidate plan d typed query v ≡ (ok o, v')
      → IsUnchanged o v0 v' ⊎ IsAttributed r o v'
  refuse_effects v0 plan none typed query v before h =
      inr (perform-IsAttributed plan typed query v h)
  refuse_effects v0 plan (some d) typed query v {o} {v'} before h = inl (record {
    memory =
        subst (λ (x : Result WriteOutcome × Vault). SameMemory v0 x.1) h
          ((settle_factless-SameMemory service context r (digest service at context r candidate) at
              d v0).kept
            v before);
    reason = inr (settle-factless d v h);
  })

  replay_effects :
      (v0 : Vault) (prior : Option LogRow) (typed : Option ExtractedTypedFields) (query : Query)
      (v : Vault) {o : WriteOutcome} {v' : Vault}
      → SameMemory v0 v
      → replay_or_write service at context r candidate prior typed query v ≡ (ok o, v')
      → IsUnchanged o v0 v' ⊎ IsAttributed r o v'
  unfolding write_new pure
  replay_effects v0 none typed query v before h =
      let (plan, planned, rest) = reads-returns service at context r candidate _ _ v h in
      refuse_effects v0 plan plan.decision typed query v before rest
  replay_effects v0 (some prior) typed query v {o} {v'} before h =
      let (fits, rest) = check-returns _ _ _ v h in
      inl (record {
        memory = subst (λ (x : Result WriteOutcome × Vault). SameMemory v0 x.1) rest before;
        reason = inl (ap (λ (x : Result WriteOutcome × Vault). replayed_of x.0) (sym rest));
      })

  body_effects :
      (typed : Option ExtractedTypedFields) (query : Query) (v : Vault) {o : WriteOutcome}
      {v' : Vault}
      → write_body service at context r candidate typed query v ≡ (ok o, v')
      → IsUnchanged o v v' ⊎ IsAttributed r o v'
  unfolding write_body
  body_effects typed query v {o} {v'} h =
      let (a, v1, first, h1) = >>=-returns _ _ v h in
      let (b, v2, second, h2) = >>=-returns _ _ v1 h1 in
      let before1 : SameMemory v v1 =
        subst (λ (x : Result (Unit {0}) × Vault). SameMemory v x.1) first
          ((register_client-SameMemory context at.recorded_at v).kept v (same v)) in
      let before2 : SameMemory v v2 =
        subst (λ (x : Result (Unit {0}) × Vault). SameMemory v x.1) second
          ((register_session-SameMemory context at.recorded_at v).kept v1 before1) in
      replay_effects v (load_prior context.client_id r.idempotency_key v2) typed query v2 before2
        (gets-returns _ _ v2 h2)

-- A write that returns has either changed no fact, conflict, observation, provenance or embedding
-- job, and is then a replay or has no fact in its result; or its result names a fact that is in the
-- store, in the scope of the request, with provenance from the observation that it names.
pub write_effects :
    (service : Service) (at : Surroundings) (given : ConnectionContext) (r : WriteRequest)
    (candidate : Option StateCandidate) (v : Vault) {o : WriteOutcome} {v' : Vault}
    → write service at given r candidate v ≡ (ok o, v')
    → IsUnchanged o v v' ⊎ IsAttributed r o v'
write_effects service at given r candidate v h =
    let (context, typed, query, prepared, queried, done) =
      write_lem service at given r candidate v h in
    body_effects service at context r candidate typed query v done
