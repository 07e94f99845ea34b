-- ===== src/WriteService/Replay.antt =====
-- Retries: a write that was logged is answered from the log, and its key is good for nothing else.
use holographic_plus.Base.{
  ℕ, ◌≡◌, refl, ap, sym, subst, String, true, false, Option, none, some, List, [], ◌∷◌, ◌++◌, any,
  arith, str_eq_refl, str_eq_iff, Bool-cases, inl, inr, Result, ok, find-append_new,
}
use holographic_plus.Exec.{Exec, ◌>>=◌, ◌>>◌, >>=-returns, gets-returns, check-returns, pure}
use holographic_plus.FactStore.{Session}
use holographic_plus.Policy.Grants.{ConnectionContext}
use holographic_plus.Policy.Writes.{WriteRequest, PolicyDecision}
use holographic_plus.StateSlots.Candidate.{StateCandidate}
use holographic_plus.WriteService.Rows.{
  Vault, Client, Service, Surroundings, LogRow, WriteOutcome, Query, is_logged, is_observed,
  is_attached,
}
use holographic_plus.WriteService.Ledger.{insert_observation, attach_provenance}
use holographic_plus.WriteService.Log.{
  load_prior, outcome_from_row, refuses_log, insert_log, factless_row, record_factless_decision,
  factless_decision_is_durable, settle_factless,
}
use holographic_plus.WriteService.Typed.{ExtractedTypedFields}
use holographic_plus.WriteService.Plan.{Plan}
use holographic_plus.WriteService.Carry.{on_store, write_fact, Matches, Carried, match_untyped}
use holographic_plus.WriteService.Write.{
  reads, digest, conclude, perform, perform_or_refuse, write_new, replay_or_write,
}
use holographic_plus.WriteService.Sessions.{sessions-KeptByStatements}
use holographic_plus.WriteService.Parts.{KeptByParts, write_new-kept}

-- After the registration, a write changes no client and no session.
abbrev SameRegister : List Client → List Session → Vault → Type 0
SameRegister clients sessions v = (v.clients ≡ clients) × (v.store.sessions ≡ sessions)

same_register :
    (service : Service) (clients : List Client) (sessions : List Session)
    → KeptByParts service (λ s. s.sessions ≡ sessions) (SameRegister clients sessions)
unfolding write_fact on_store insert_observation attach_provenance insert_log
same_register service clients sessions = record {
  statements = sessions-KeptByStatements (λ (ss : List Session). ss ≡ sessions);
  by_writer = λ r i. record { kept = λ s h. h };
  by_store = λ m keeps. record { kept = λ v h. (h.0, keeps.kept v.store h.1) };
  by_observation = λ context r digest now. record {
    kept = λ v h.
        elim (Bool-cases (
          any (is_observed context.client_id digest context.session_id r.source_type)
            v.observations)) [ inl there ↦ rw there h | inr free ↦ rw free h ];
  };
  by_enqueue = λ spec clock i. record { kept = λ v h. h };
  by_provenance = λ i observation_id r now. record {
    kept = λ v h. elim (Bool-cases (any (is_attached i observation_id r.relation) v.provenance)) [
      | inl there ↦ rw there h
      | inr free ↦ rw free h
    ];
  };
  by_log = λ row. record {
    kept = λ v h. elim (Bool-cases (refuses_log row v)) [
      | inl refused ↦ rw refused h
      | inr fine ↦ rw fine h
    ];
  };
}

-- The log row of a write whose row was taken in.
insert_log_lem :
    (row : LogRow) (v : Vault) {u : Unit {0}} {v' : Vault}
    → insert_log row v ≡ (ok u, v')
    → load_prior row.client_id row.idempotency_key v' ≡ some row
unfolding insert_log load_prior is_logged refuses_log
insert_log_lem row v {u} {v'} h = elim (Bool-cases (refuses_log row v)) [
  | inl refused ↦ absurd (cc (rw refused at h))
  | inr fine ↦
      let state : record v { log = v.log ++ row ∷ [] } ≡ v' =
        ap (λ (x : Result (Unit {0}) × Vault). x.1) (rw fine at h) in
      rw (← state) (
        find-append_new (is_logged row.client_id row.idempotency_key) v.log row (ground arith)
          (ground (arith, str_eq_refl row.client_id, str_eq_refl row.idempotency_key)))
]

-- A write that returned with its key in the log: the row has the digest of the request, and the
-- result is the row's.
pub record IsAnswered (row : LogRow) (digest : String) (o : WriteOutcome) : Type 0 where
  pub same_digest : row.request_sha256 ≡ digest
  pub same_outcome : outcome_from_row row true ≡ record o { replayed = true }

module _ (service : Service) (at : Surroundings) (context : ConnectionContext) (r : WriteRequest)
    (candidate : Option StateCandidate) where
  -- The row that is inserted is the one that the key finds.
  logged_answer :
      (row found : LogRow) (v : Vault) {o : WriteOutcome} {v' : Vault}
      → row.client_id ≡ context.client_id
      → row.idempotency_key ≡ r.idempotency_key
      → row.request_sha256 ≡ digest service at context r candidate
      → (insert_log row >> pure (outcome_from_row row false)) v ≡ (ok o, v')
      → load_prior context.client_id r.idempotency_key v' ≡ some found
      → IsAnswered found (digest service at context r candidate) o
  unfolding pure
  logged_answer row found v {o} {v'} client key same h there =
      let (u, w, inserted, rest) = >>=-returns _ _ v h in
      let o_is : outcome_from_row row false ≡ o = cc in
      let v_is : w ≡ v' = ap (λ (x : Result WriteOutcome × Vault). x.1) rest in
      let own : load_prior context.client_id r.idempotency_key v' ≡ some row =
        rw (← v_is, ← client, ← key) (insert_log_lem row v inserted) in
      let row_is : row ≡ found = cc in
      rw (← row_is) (record { same_digest = same; same_outcome = rw (← o_is) refl })

  conclude_answer :
      (plan : Plan) (found : Matches) (carried : Carried) (i : ℕ) (v : Vault) {o : WriteOutcome}
      {v' : Vault} {row : LogRow}
      → conclude service at context r candidate plan found carried i v ≡ (ok o, v')
      → load_prior context.client_id r.idempotency_key v' ≡ some row
      → IsAnswered row (digest service at context r candidate) o
  unfolding conclude
  conclude_answer plan found carried i v {o} {v'} {row} h there =
      let (a1, v1, e1, h1) = >>=-returns _ _ v h in
      let (a2, v2, e2, h2) = >>=-returns _ _ v1 h1 in
      let (a3, v3, e3, h3) = >>=-returns _ _ v2 h2 in
      let (superseded, v4, e4, h4) = >>=-returns _ _ v3 h3 in
      logged_answer _ row v4 refl refl refl h4 there

  perform_answer :
      (plan : Plan) (typed : Option ExtractedTypedFields) (query : Query) (v : Vault)
      {o : WriteOutcome} {v' : Vault} {row : LogRow}
      → perform service at context r candidate plan typed query v ≡ (ok o, v')
      → load_prior context.client_id r.idempotency_key v' ≡ some row
      → IsAnswered row (digest service at context r candidate) o
  unfolding perform
  perform_answer plan typed query v {o} {v'} {row} h there =
      let (i, v1, e1, h1) = >>=-returns _ _ v h in
      let (carried, v2, e2, h2) = >>=-returns _ _ v1 (gets-returns _ _ v1 h1) in
      let found = match_untyped service at.env r candidate typed query v1.store.facts in
      conclude_answer plan found carried i v2 h2 there

  settle_answer :
      (d : PolicyDecision) (v : Vault) {o : WriteOutcome} {v' : Vault} {row : LogRow}
      → load_prior context.client_id r.idempotency_key v ≡ none
      → settle_factless service context r (digest service at context r candidate) at d v
        ≡ (ok o, v')
      → load_prior context.client_id r.idempotency_key v' ≡ some row
      → IsAnswered row (digest service at context r candidate) o
  unfolding settle_factless record_factless_decision pure
  settle_answer d v {o} {v'} {row} absent h there =
      elim (Bool-cases (factless_decision_is_durable d)) [
        | inl durable ↦
            logged_answer
              (factless_row service context r (digest service at context r candidate) at d) row v
              refl refl refl (rw durable at h) there
        | inr ephemeral ↦
            let same : v ≡ v' = ap (λ (x : Result WriteOutcome × Vault). x.1) (rw ephemeral at h) in
            absurd (cc (rw (← same) at there))
      ]

  refuse_answer :
      (plan : Plan) (d : Option PolicyDecision) (typed : Option ExtractedTypedFields)
      (query : Query) (v : Vault) {o : WriteOutcome} {v' : Vault} {row : LogRow}
      → load_prior context.client_id r.idempotency_key v ≡ none
      → perform_or_refuse service at context r candidate plan d typed query v ≡ (ok o, v')
      → load_prior context.client_id r.idempotency_key v' ≡ some row
      → IsAnswered row (digest service at context r candidate) o
  refuse_answer plan none typed query v absent h there = perform_answer plan typed query v h there
  refuse_answer plan (some d) typed query v absent h there = settle_answer d v absent h there

  pub reads-returns :
      {S A B : Type 0} (f : S → Result A) (rest : A → Exec S B) (s : S) {b : B} {s' : S}
      → (reads f >>= rest) s ≡ (ok b, s')
      → (a : A) × (f s ≡ ok a) × (rest a s ≡ (ok b, s'))
  unfolding reads
  reads-returns f rest s h =
      let (a, t, e, k) = >>=-returns _ _ s h in
      let same : s ≡ t = ap (λ x. x.1) e in (a, ap (λ x. x.0) e, rw same k)

  write_new_answer :
      (typed : Option ExtractedTypedFields) (query : Query) (v : Vault) {o : WriteOutcome}
      {v' : Vault} {row : LogRow}
      → load_prior context.client_id r.idempotency_key v ≡ none
      → write_new service at context r candidate typed query v ≡ (ok o, v')
      → load_prior context.client_id r.idempotency_key v' ≡ some row
      → IsAnswered row (digest service at context r candidate) o
  unfolding write_new
  write_new_answer typed query v absent h there =
      let (plan, planned, rest) = reads-returns _ _ v h in
      refuse_answer plan plan.decision typed query v absent rest there

  -- In the transaction, after the registration.
  pub replay_answer :
      (prior : Option LogRow) (typed : Option ExtractedTypedFields) (query : Query) (v : Vault)
      {o : WriteOutcome} {v' : Vault} {row : LogRow}
      → load_prior context.client_id r.idempotency_key v ≡ prior
      → replay_or_write service at context r candidate prior typed query v ≡ (ok o, v')
      → load_prior context.client_id r.idempotency_key v' ≡ some row
      → IsAnswered row (digest service at context r candidate) o
        × (v'.clients ≡ v.clients)
        × (v'.store.sessions ≡ v.store.sessions)
  unfolding pure
  replay_answer none typed query v {o} {v'} absent h there =
      let frame =
        (write_new-kept (same_register service v.clients v.store.sessions) at context r candidate
            typed query).kept
          v (refl, refl) in
      let same = ap (λ (x : Result WriteOutcome × Vault). x.1) h in
      (
        write_new_answer typed query v absent h there,
        subst (λ (w : Vault). w.clients ≡ v.clients) same frame.0,
        subst (λ (w : Vault). w.store.sessions ≡ v.store.sessions) same frame.1,
      )
  replay_answer (some prior) typed query v {o} {v'} {row} found h there =
      let (fits, rest) = check-returns _ _ _ v h in
      let same : v ≡ v' = ap (λ (x : Result WriteOutcome × Vault). x.1) rest in
      let o_is : outcome_from_row prior true ≡ o = cc in
      let row_is : prior ≡ row = cc (found, rw (← same) at there) in
      (
        rw (← row_is) (record {
          same_digest =
              (str_eq_iff prior.request_sha256 (digest service at context r candidate)).0 fits;
          same_outcome = rw (← o_is) refl;
        }),
        ap (λ (w : Vault). w.clients) (sym same),
        ap (λ (w : Vault). w.store.sessions) (sym same),
      )
