-- ===== src/WriteService/Retry.antt =====
-- What a retry gets.
use holographic_plus.Base.{
  ℕ, ◌≡◌, refl, ap, sym, ◌∙◌, String, true, Option, none, some, [], str_eq_refl, ok, select,
  >>=-eq-ok, not, require, if◌then◌else◌,
}
use holographic_plus.Exec.{
  ◌>>=◌, >>=-returns, gets-returns, lift-returns, transaction, transaction-returns,
}
use holographic_plus.Policy.Scopes.{is_one_of}
use holographic_plus.Policy.Grants.{
  ConnectionContext, authorize_context, grants_of, or_unknown, validate_scopes, is_no_scope,
}
use holographic_plus.Policy.Writes.{WriteRequest, evaluate_write}
use holographic_plus.StateSlots.Candidate.{StateCandidate}
use holographic_plus.WriteService.Rows.{Vault, Service, Surroundings, LogRow, WriteOutcome, Query}
use holographic_plus.WriteService.Log.{load_prior}
use holographic_plus.WriteService.Typed.{
  ExtractedTypedFields, prelude, validate_state_candidate, extracted_typed_fields,
}
use holographic_plus.WriteService.Queries.{needs_no_query, embed_with, prepare_near_dedup_query}
use holographic_plus.WriteService.Write.{reads, digest, write_body, write}
use holographic_plus.WriteService.Registered.{
  IsRegistered, register_client_again, register_session_again, register-IsRegistered,
}
use holographic_plus.WriteService.Replay.{IsAnswered, replay_answer, reads-returns}

-- The policy does not change who the client is.
authorized_client :
    (service : Service) (given : ConnectionContext) {context : ConnectionContext}
    → authorize_context service.policy service.extracting given ≡ ok context
    → context.client_id ≡ given.client_id
unfolding authorize_context
authorized_client service given {context} h =
    let (grants, e1, h1) =
      >>=-eq-ok (or_unknown (grants_of service.policy service.extracting given.client_id)) _ h in
    let (requested, e2, h2) = >>=-eq-ok (validate_scopes given.access_scopes) _ h1 in
    let (u, e3, h3) =
      >>=-eq-ok (require (not (is_no_scope (select (is_one_of grants) requested))) _) _ h2 in
    let effective : ConnectionContext = record given {
      access_scopes = select (is_one_of grants) requested;
    } in
    let same : effective ≡ context = cc h3 in
    ap (λ (c : ConnectionContext). c.client_id) {x = context} {y = effective} (sym same)

pub prelude_client :
    (service : Service) (at : Surroundings) (given : ConnectionContext) (r : WriteRequest)
    (candidate : Option StateCandidate) {context : ConnectionContext}
    {typed : Option ExtractedTypedFields}
    → prelude service at given r candidate ≡ ok (context, typed)
    → context.client_id ≡ given.client_id
unfolding prelude
prelude_client service at given r candidate {context} {typed} h =
    let (c, e1, h1) = >>=-eq-ok (authorize_context service.policy service.extracting given) _ h in
    let (u, e2, h2) = >>=-eq-ok (validate_state_candidate r candidate) _ h1 in
    let (t, e3, h3) = >>=-eq-ok (extracted_typed_fields service at.env r candidate) _ h2 in
    let same : (c, t) ≡ (context, typed) = cc h3 in
    ap (λ (p : ConnectionContext × Option ExtractedTypedFields). p.0.client_id)
      {x = (context, typed)} {y = (c, t)} (sym same)
    ∙ authorized_client service given e1

-- Whether the query can be prepared does not depend on the store.
prepared_again :
    (service : Service) (context : ConnectionContext) (r : WriteRequest)
    (candidate : Option StateCandidate) (v w : Vault) {q : Query}
    → prepare_near_dedup_query service context r candidate v ≡ ok q
    → (q' : Query) × (prepare_near_dedup_query service context r candidate w ≡ ok q')
unfolding prepare_near_dedup_query
prepared_again service context r candidate v w h =
    let (d, e, rest) =
      >>=-eq-ok
        (evaluate_write service.shape_found service.screens service.policy r
          (some context.client_id) [])
        _ h in
    (
      if needs_no_query service context r candidate w d
          then none
          else embed_with service.query_embedder r.content,
      rw e refl,
    )

module _ (service : Service) (at : Surroundings) (context : ConnectionContext) (r : WriteRequest)
    (candidate : Option StateCandidate) where
  body_answer :
      (typed : Option ExtractedTypedFields) (query : Query) (v : Vault) {o : WriteOutcome}
      {v' : Vault} {row : LogRow}
      → write_body service at context r candidate typed query v ≡ (ok o, v')
      → load_prior context.client_id r.idempotency_key v' ≡ some row
      → IsAnswered row (digest service at context r candidate) o
        × IsRegistered context v'.clients v'.store.sessions
  unfolding write_body
  body_answer typed query v {o} {v'} {row} h there =
      let (a, v1, first, h1) = >>=-returns _ _ v h in
      let (b, v2, second, h2) = >>=-returns _ _ v1 h1 in
      let (answered, clients, sessions) =
        replay_answer service at context r candidate
          (load_prior context.client_id r.idempotency_key v2) typed query v2 refl
          (gets-returns _ _ v2 h2) there in
      let registered = register-IsRegistered context at.recorded_at v first second in
      (answered, rw (clients, sessions) registered)

  body_again :
      (typed : Option ExtractedTypedFields) (query : Query) (v : Vault) {o : WriteOutcome}
      {row : LogRow}
      → IsRegistered context v.clients v.store.sessions
      → load_prior context.client_id r.idempotency_key v ≡ some row
      → IsAnswered row (digest service at context r candidate) o
      → write_body service at context r candidate typed query v
        ≡ (ok (record o { replayed = true }), v)
  unfolding write_body ◌>>=◌
  body_again typed query v {o} {row} registered there answered =
      rw (register_client_again v at.recorded_at registered) (
        rw (register_session_again v at.recorded_at registered) (
          rw there (
            rw (answered.same_digest, str_eq_refl (digest service at context r candidate))
              (rw answered.same_outcome refl))))

-- The surroundings of a retry: another clock, and other identifiers.
abbrev pub retried : Surroundings → String → String → String → ℕ → String → Surroundings
retried at now uuid recorded_at clock write_id = record {
  env = record at.env { utc_now = now; uuid = uuid };
  recorded_at = recorded_at;
  clock = clock;
  write_id = write_id;
}

module _ (service : Service) (at : Surroundings) (given : ConnectionContext) (r : WriteRequest)
    (candidate : Option StateCandidate) where
  -- What a write that returned did.
  pub write_lem :
      (v : Vault) {o : WriteOutcome} {v' : Vault}
      → write service at given r candidate v ≡ (ok o, v')
      → (context : ConnectionContext) × (typed : Option ExtractedTypedFields) × (query : Query)
        × (prelude service at given r candidate ≡ ok (context, typed))
        × (prepare_near_dedup_query service context r candidate v ≡ ok query)
        × (write_body service at context r candidate typed query v ≡ (ok o, v'))
  unfolding write
  write_lem v {o} {v'} h =
      let ((context, typed), prepared, h1) =
        lift-returns (prelude service at given r candidate) _ v h in
      let (query, queried, h2) =
        reads-returns service at context r candidate
          (prepare_near_dedup_query service context r candidate) _ v h1 in
      (
        context,
        typed,
        query,
        prepared,
        queried,
        transaction-returns (write_body service at context r candidate typed query) v h2,
      )

  write_by :
      (v : Vault) {context : ConnectionContext} {typed : Option ExtractedTypedFields}
      {query : Query} {o : WriteOutcome} {v' : Vault}
      → prelude service at given r candidate ≡ ok (context, typed)
      → prepare_near_dedup_query service context r candidate v ≡ ok query
      → write_body service at context r candidate typed query v ≡ (ok o, v')
      → write service at given r candidate v ≡ (ok o, v')
  unfolding write transaction ◌>>=◌ reads
  write_by v prepared queried done = rw prepared (rw queried (rw done refl))

-- A write that returned, and whose key is in the log afterwards, is answered from the log when it
-- is sent again, in the same context but at another time: the result is the same, marked as
-- replayed, and nothing in the store changes.
pub retry_replays :
    (service : Service) (at : Surroundings) (given : ConnectionContext) (r : WriteRequest)
    (candidate : Option StateCandidate) (now uuid recorded_at : String) (clock : ℕ)
    (write_id : String) (v : Vault) {o : WriteOutcome} {v' : Vault} {row : LogRow}
    → write service at given r candidate v ≡ (ok o, v')
    → load_prior given.client_id r.idempotency_key v' ≡ some row
    → write service (retried at now uuid recorded_at clock write_id) given r candidate v'
      ≡ (ok (record o { replayed = true }), v')
unfolding prelude
retry_replays service at given r candidate now uuid recorded_at clock write_id v {o} {v'} {row} h
      there =
    let again = retried at now uuid recorded_at clock write_id in
    let (context, typed, query, prepared, queried, done) =
      write_lem service at given r candidate v h in
    let found : load_prior context.client_id r.idempotency_key v' ≡ some row =
      rw (prelude_client service at given r candidate prepared) there in
    let (answered, registered) =
      body_answer service at context r candidate typed query v done found in
    let (query', queried') = prepared_again service context r candidate v v' queried in
    let prelude' : prelude service again given r candidate ≡ ok (context, typed) = prepared in
    write_by service again given r candidate v' prelude' queried'
      (body_again service again context r candidate typed query' v' registered found answered)
