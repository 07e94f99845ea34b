-- ===== src/WriteService/Reused.antt =====
-- A key that is used again for another request.
use holographic_plus.Base.{
  ◌≡◌, refl, subst, String, true, false, Option, none, some, List, str_eq, Bool-cases, inl, inr,
  any, Result, ok, raise,
}
use holographic_plus.Exec.{>>=-returns, gets-returns, check-returns}
use holographic_plus.Keeps.{Keeps, keeps_rules}
use holographic_plus.Policy.Grants.{ConnectionContext}
use holographic_plus.Policy.Writes.{WriteRequest}
use holographic_plus.StateSlots.Candidate.{StateCandidate}
use holographic_plus.WriteService.Rows.{
  Vault, Service, Surroundings, LogRow, WriteOutcome, Query, has_client,
}
use holographic_plus.WriteService.Ledger.{
  insert_client, has_session, upsert_session, register_client, register_session,
}
use holographic_plus.WriteService.Log.{load_prior}
use holographic_plus.WriteService.Typed.{ExtractedTypedFields}
use holographic_plus.WriteService.Write.{digest, replay_or_write, write_body, write}
use holographic_plus.WriteService.Atomic.{is_ok, write_rolls_back}
use holographic_plus.WriteService.Retry.{prelude_client, write_lem}

-- Registering changes no row of the log.
insert_client-log :
    (context : ConnectionContext) (now : String) (log : List LogRow)
    → Keeps (λ v. v.log ≡ log) (insert_client context now)
unfolding insert_client
insert_client-log context now log = record {
  kept = λ v h. elim (Bool-cases (any (has_client context.client_id) v.clients)) [
    | inl there ↦ rw there h
    | inr free ↦ rw free h
  ];
}

upsert_session-log :
    (context : ConnectionContext) (now : String) (log : List LogRow)
    → Keeps (λ v. v.log ≡ log) (upsert_session context now)
unfolding upsert_session
upsert_session-log context now log = record {
  kept = λ v h. elim (Bool-cases (any (has_session context) v.store.sessions)) [
    | inl there ↦ rw there h
    | inr free ↦ rw free h
  ];
}

register_client-log :
    (context : ConnectionContext) (now : String) (log : List LogRow)
    → Keeps (λ v. v.log ≡ log) (register_client context now)
unfolding register_client
register_client-log context now log = search (keeps_rules, insert_client-log) depth 8

register_session-log :
    (context : ConnectionContext) (now : String) (log : List LogRow)
    → Keeps (λ v. v.log ≡ log) (register_session context now)
unfolding register_session
register_session-log context now log = search (keeps_rules, upsert_session-log) depth 8

refused_prior :
    (service : Service) (at : Surroundings) (context : ConnectionContext) (r : WriteRequest)
    (candidate : Option StateCandidate) (prior : Option LogRow)
    (typed : Option ExtractedTypedFields) (query : Query) (v : Vault) {o : WriteOutcome}
    {v' : Vault} {row : LogRow}
    → prior ≡ some row
    → replay_or_write service at context r candidate prior typed query v ≡ (ok o, v')
    → str_eq row.request_sha256 (digest service at context r candidate) ≡ true
refused_prior service at context r candidate none typed query v e h = cc
refused_prior service at context r candidate (some prior) typed query v {o} {v'} {row} e h =
    let same : prior ≡ row = cc in rw (← same) (check-returns _ _ _ v h).0

body_refused :
    (service : Service) (at : Surroundings) (context : ConnectionContext) (r : WriteRequest)
    (candidate : Option StateCandidate) (typed : Option ExtractedTypedFields) (query : Query)
    (v : Vault) {o : WriteOutcome} {v' : Vault} {row : LogRow}
    → write_body service at context r candidate typed query v ≡ (ok o, v')
    → load_prior context.client_id r.idempotency_key v ≡ some row
    → str_eq row.request_sha256 (digest service at context r candidate) ≡ true
unfolding write_body load_prior
body_refused service at context r candidate typed query v {o} {v'} {row} h there =
    let (a, v1, first, h1) = >>=-returns _ _ v h in
    let (b, v2, second, h2) = >>=-returns _ _ v1 h1 in
    let log1 : v1.log ≡ v.log =
      subst (λ (x : Result (Unit {0}) × Vault). x.1.log ≡ v.log) first
        ((register_client-log context at.recorded_at v.log).kept v refl) in
    let log2 : v2.log ≡ v.log =
      subst (λ (x : Result (Unit {0}) × Vault). x.1.log ≡ v.log) second
        ((register_session-log context at.recorded_at v.log).kept v1 log1) in
    refused_prior service at context r candidate (load_prior context.client_id r.idempotency_key v2)
      typed query v2 {o = o} {v' = v'} {row = row} (rw log2 there) (gets-returns _ _ v2 h2)

returned_value :
    {A S : Type 0} (x : Result A × S) → is_ok x.0 ≡ true → (a : A) × (s : S) × (x ≡ (ok a, s))
returned_value (ok a, s) h = (a, s, refl)
returned_value (raise e, s) h = cc

-- A key that the log has for the client, with another digest, is refused: the write raises, and
-- nothing in the store changes.
pub reused_key_refused :
    (service : Service) (at : Surroundings) (given : ConnectionContext) (r : WriteRequest)
    (candidate : Option StateCandidate) (v : Vault) {row : LogRow}
    → load_prior given.client_id r.idempotency_key v ≡ some row
    → str_eq row.request_sha256 (service.request_sha256 given.client_id r candidate) ≡ false
    → (is_ok (write service at given r candidate v).0 ≡ false)
      × ((write service at given r candidate v).1 ≡ v)
reused_key_refused service at given r candidate v {row} there other =
    elim (Bool-cases (is_ok (write service at given r candidate v).0)) [
      | inr failed ↦ (failed, write_rolls_back service at given r candidate v failed)
      | inl returned ↦
          let (o, v', h) = returned_value (write service at given r candidate v) returned in
          let (context, typed, query, prepared, queried, done) =
            write_lem service at given r candidate v h in
          let client = prelude_client service at given r candidate prepared in
          let same : str_eq row.request_sha256
                (service.request_sha256 context.client_id r candidate)
              ≡ true =
            body_refused service at context r candidate typed query v {o = o} {v' = v'} {row = row}
              done (rw client there) in
          absurd (cc (rw client at same))
    ]
