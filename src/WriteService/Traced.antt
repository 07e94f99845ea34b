-- ===== src/WriteService/Traced.antt =====
-- Every write, whether it returns or raises, keeps the trails of the log.
use holographic_plus.Base.{
  ℕ, refl, Bool, Option, none, some, List, [], ◌∷◌, Bool-cases, inl, inr, Result, ok, raise,
}
use holographic_plus.Exec.{Exec}
use holographic_plus.Keeps.{Keeps, keeps_rules, Keeps-bind, Keeps-if, Keeps-pure}
use holographic_plus.Ensures.{Ensures, Ensures-bind, Ensures-Keeps, Ensures-pure, Keeps-Ensures}
use holographic_plus.Policy.Grants.{ConnectionContext}
use holographic_plus.Policy.Writes.{WriteRequest, PolicyDecision}
use holographic_plus.StateSlots.Candidate.{StateCandidate}
use holographic_plus.WriteService.Rows.{
  Vault, Service, Surroundings, LogRow, WriteOutcome, BatchItem, Query,
}
use holographic_plus.WriteService.Ledger.{register_client, register_session}
use holographic_plus.WriteService.Log.{
  insert_log, factless_row, record_factless_decision, settle_factless,
}
use holographic_plus.WriteService.Typed.{ExtractedTypedFields}
use holographic_plus.WriteService.Plan.{Plan}
use holographic_plus.WriteService.Untyped.{authorize_fact_scope}
use holographic_plus.WriteService.Carry.{Matches, Carried, carry_out}
use holographic_plus.WriteService.Write.{
  digest, details, result_row, supersede_requested, conclude, perform, perform_or_refuse, write_new,
  WriteBatchOutcome, replay_or_write, write_body, write, write_managed, write_each,
  run_before_commit, batch_transaction, keep_batch, write_batch,
}
use holographic_plus.WriteService.Parts.{Keeps-reads}
use holographic_plus.WriteService.Trail.{
  IsTraced, TracedIn, RecordedIn, AttachedIn, IsRecorded, IsAttachedTo,
  record_observation-IsRecorded, attach_provenance-IsAttachedTo, insert_log-IsTraced,
  on_store-OfTrail, enqueue_embedding-OfTrail, register_client-OfTrail, register_session-OfTrail,
}

module _ (service : Service) (at : Surroundings) (context : ConnectionContext) (r : WriteRequest)
    (candidate : Option StateCandidate) where
  conclude-IsTraced :
      (plan : Plan) (found : Matches) (carried : Carried) (k : ℕ)
      → Ensures
          (IsRecorded context.client_id k)
          (λ o. IsTraced)
          IsTraced
          (conclude service at context r candidate plan found carried k)
  unfolding conclude
  conclude-IsTraced plan found carried k =
      let i = carried.result.fact_id in
      Ensures-bind _ _
        (Ensures-Keeps _ (λ v h. h.0)
          (enqueue_embedding-OfTrail (RecordedIn context.client_id k) service at.clock
            service.embedding_enqueue carried.enqueue))
        (λ _.
          Ensures-bind _ _
            (Ensures-Keeps _ (λ v h. h.0)
              (on_store-OfTrail (RecordedIn context.client_id k) (authorize_fact_scope i r.scope)))
            (λ _.
              Ensures-bind _ _
                (attach_provenance-IsAttachedTo context.client_id i k r at.recorded_at)
                (λ _.
                  Ensures-bind _ _
                    (Ensures-Keeps _ (λ v h. h.0.0)
                      (on_store-OfTrail (AttachedIn context.client_id i k)
                        (supersede_requested service at context r candidate i)))
                    (λ superseded.
                      Ensures-bind _ _
                        (insert_log-IsTraced
                          (result_row service context r (digest service at context r candidate) at k
                            carried.result
                            (service.add_details carried.result.detail_json
                              (details r plan.state_decision found carried superseded)))
                          (IsAttachedTo context.client_id i k)
                          (λ v h. (h.0.0, rw (h.1, h.0.1) refl)))
                        (λ _. Ensures-pure _)))))

  perform-IsTraced :
      (plan : Plan) (typed : Option ExtractedTypedFields) (query : Query)
      → Keeps IsTraced (perform service at context r candidate plan typed query)
  unfolding perform
  perform-IsTraced plan typed query = Keeps-Ensures _ (
      Ensures-bind _ _ (record_observation-IsRecorded service context r at.recorded_at) (λ k.
        Ensures-bind _ _ (Ensures-Keeps _ (λ v h. h.0) (search keeps_rules)) (λ found.
          Ensures-bind _ _
            (Ensures-Keeps _ (λ v h. h.0)
              (on_store-OfTrail (RecordedIn context.client_id k)
                (carry_out service context r at plan found typed k)))
            (λ carried. conclude-IsTraced plan found carried k))))

  refusal-IsTraced :
      (d : PolicyDecision)
      → Keeps IsTraced
          (insert_log (factless_row service context r (digest service at context r candidate) at d))
  refusal-IsTraced d = Keeps-Ensures _ (insert_log-IsTraced _ IsTraced (λ v h. (h, refl)))

  perform_or_refuse-IsTraced :
      (plan : Plan) (d : Option PolicyDecision) (typed : Option ExtractedTypedFields)
      (query : Query)
      → Keeps IsTraced (perform_or_refuse service at context r candidate plan d typed query)
  unfolding settle_factless record_factless_decision
  perform_or_refuse-IsTraced plan none typed query = perform-IsTraced plan typed query
  perform_or_refuse-IsTraced plan (some d) typed query =
      search (keeps_rules, refusal-IsTraced) depth 10

  replay_or_write-IsTraced :
      (prior : Option LogRow) (typed : Option ExtractedTypedFields) (query : Query)
      → Keeps IsTraced (replay_or_write service at context r candidate prior typed query)
  unfolding write_new
  replay_or_write-IsTraced none typed query =
      search (keeps_rules, Keeps-reads, perform_or_refuse-IsTraced) depth 10
  replay_or_write-IsTraced (some prior) typed query = search keeps_rules depth 8

  registered-IsTraced : Keeps IsTraced (register_client context at.recorded_at)
  registered-IsTraced = register_client-OfTrail TracedIn context at.recorded_at

  session-IsTraced : Keeps IsTraced (register_session context at.recorded_at)
  session-IsTraced = register_session-OfTrail TracedIn context at.recorded_at

  write_body-IsTraced :
      (typed : Option ExtractedTypedFields) (query : Query)
      → Keeps IsTraced (write_body service at context r candidate typed query)
  unfolding write_body
  write_body-IsTraced typed query =
      search (keeps_rules, registered-IsTraced, session-IsTraced, replay_or_write-IsTraced) depth 12

module _ (service : Service) where
  pub write-IsTraced :
      (at : Surroundings) (given : ConnectionContext) (r : WriteRequest)
      (candidate : Option StateCandidate)
      → Keeps IsTraced (write service at given r candidate)
  unfolding write
  write-IsTraced at given r candidate =
      search (keeps_rules, Keeps-reads, write_body-IsTraced) depth 14

  write_managed-IsTraced :
      (at : Surroundings) (given : ConnectionContext) (r : WriteRequest)
      (candidate : Option StateCandidate) (query : Query)
      → Keeps IsTraced (write_managed service at given r candidate query)
  unfolding write_managed
  write_managed-IsTraced at given r candidate query =
      search (keeps_rules, Keeps-reads, write_body-IsTraced) depth 14

  write_each-IsTraced :
      (context : ConnectionContext) (rollback_if : WriteOutcome → Bool)
      (items : List (BatchItem × Query))
      → Keeps IsTraced (write_each service context rollback_if items)
  unfolding write_each
  write_each-IsTraced context rollback_if [] = search keeps_rules
  write_each-IsTraced context rollback_if ((item, query) ∷ items) =
      Keeps-bind _ _ (write_managed-IsTraced item.at context item.request item.candidate query)
        (λ outcome.
          Keeps-if (rollback_if outcome) _ _ (Keeps-pure _)
            (Keeps-bind _ _ (write_each-IsTraced context rollback_if items) (λ rest. Keeps-pure _)))

  before_commit-IsTraced :
      (hook : Exec Vault (Unit {0})) (done : WriteBatchOutcome)
      → Keeps IsTraced hook
      → Keeps IsTraced (run_before_commit hook done)
  unfolding run_before_commit
  before_commit-IsTraced hook done quiet =
      Keeps-if done.committed _ _ (Keeps-bind _ _ quiet (λ _. Keeps-pure _)) (Keeps-pure _)

  keep_batch-kept :
      (before : Vault) (x : Result WriteBatchOutcome × Vault)
      → IsTraced before
      → IsTraced x.1
      → IsTraced (keep_batch before x).1
  keep_batch-kept before (raise e, after) held now = held
  keep_batch-kept before (ok done, after) held now = elim (Bool-cases done.committed) [
    | inl committed ↦ rw committed now
    | inr rolled_back ↦ rw rolled_back held
  ]

  batch_transaction-IsTraced :
      (m : Exec Vault WriteBatchOutcome) → Keeps IsTraced m → Keeps IsTraced (batch_transaction m)
  unfolding batch_transaction
  batch_transaction-IsTraced m keeps = record {
    kept = λ v h. keep_batch-kept v (m v) h (keeps.kept v h);
  }

  pub write_batch-IsTraced :
      (given : ConnectionContext) (items : List BatchItem) (rollback_if : WriteOutcome → Bool)
      (hook : Exec Vault (Unit {0}))
      → Keeps IsTraced hook
      → Keeps IsTraced (write_batch service given items rollback_if hook)
  unfolding write_batch
  write_batch-IsTraced given items rollback_if hook quiet =
      search (keeps_rules, Keeps-reads, batch_transaction-IsTraced, write_each-IsTraced, called)
        depth 16
    where
      called : (done : WriteBatchOutcome) → Keeps IsTraced (run_before_commit hook done)
      called done = before_commit-IsTraced hook done quiet
