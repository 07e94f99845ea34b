-- ===== src/WriteService/Log.antt =====
-- The log of writes: `_load_prior`, `_outcome_from_row`, `_record_factless_decision` and what is
-- recorded of a decision that the policy takes without a fact.
use holographic_plus.Base.{
  ℕ, String, Bool, true, false, not, ◌&&◌, ◌||◌, Option, none, some, List, [], ◌∷◌, ◌++◌, str_eq,
  any, find, if◌then◌else◌, ok, raise, integrity_error,
}
use holographic_plus.Exec.{Exec, pure, ◌>>◌}
use holographic_plus.FactStore.{Fact, has_fact_id}
use holographic_plus.Policy.Grants.{ConnectionContext}
use holographic_plus.Policy.Writes.{WriteRequest, PolicyDecision, Verdict, rejected, needs_review}
use holographic_plus.WriteService.Rows.{
  Vault, LogRow, WriteOutcome, Service, Surroundings, of_text, is_logged,
}

unfoldable pub load_prior : String → String → Vault → Option LogRow
unfolding is_logged
load_prior client_id key v = find (is_logged client_id key) v.log

abbrev pub outcome_from_row : LogRow → Bool → WriteOutcome
outcome_from_row r replayed = record {
  write_id = r.write_id;
  outcome = r.outcome;
  fact_id = r.fact_id;
  existing_fact_id = r.existing_fact_id;
  observation_id = r.observation_id;
  replayed = replayed;
  detail_json = r.detail_json;
}

abbrev is_missing : List Fact → Option ℕ → Bool
is_missing facts none = false
is_missing facts (some i) = not (any (has_fact_id i) facts)

-- The keys of the log, and its references to facts.
unfoldable pub refuses_log : LogRow → Vault → Bool
unfolding is_logged
refuses_log r v =
    any (λ (q : LogRow). str_eq q.write_id r.write_id) v.log
    || any (is_logged r.client_id r.idempotency_key) v.log
    || is_missing v.store.facts r.fact_id
    || is_missing v.store.facts r.existing_fact_id

-- `INSERT INTO memory_write_log`
unfoldable pub insert_log : LogRow → Exec Vault (Unit {0})
unfolding refuses_log
insert_log r v =
    if refuses_log r v
    then (raise integrity_error, v)
    else (ok tt, record v { log = v.log ++ r ∷ [] })

abbrev pub verdict_name : Verdict → String
verdict_name rejected = "rejected"
verdict_name needs_review = "needs_review"

abbrev pub factless_row :
    Service → ConnectionContext → WriteRequest → String → Surroundings → PolicyDecision → LogRow
factless_row service context r digest at decision = record {
  write_id = at.write_id;
  idempotency_key = r.idempotency_key;
  client_id = context.client_id;
  session_id = context.session_id;
  operation = r.operation;
  outcome = verdict_name decision.outcome;
  fact_id = none;
  existing_fact_id = none;
  observation_id = none;
  recorded_at = at.recorded_at;
  request_sha256 = digest;
  detail_json = service.add_details "{}" (("policy_reason", of_text decision.reason) ∷ []);
}

unfoldable pub record_factless_decision :
    Service
    → ConnectionContext
    → WriteRequest
    → String
    → Surroundings
    → PolicyDecision
    → Exec Vault WriteOutcome
unfolding insert_log
record_factless_decision service context r digest at decision = do
  insert_log (factless_row service context r digest at decision)
  pure (outcome_from_row (factless_row service context r digest at decision) false)

abbrev is_environmental : String → Bool
is_environmental reason =
    str_eq reason "requested write scope is not server-authorized"
    || str_eq reason "sensitive durable write is not authorized"

abbrev is_rejection : Verdict → Bool
is_rejection rejected = true
is_rejection needs_review = false

-- A rejection that is a function of the request alone.
unfoldable pub factless_decision_is_durable : PolicyDecision → Bool
factless_decision_is_durable decision =
    is_rejection decision.outcome && not (is_environmental decision.reason)

abbrev pub ephemeral_factless_outcome : Service → Surroundings → PolicyDecision → WriteOutcome
ephemeral_factless_outcome service at decision = record {
  write_id = at.write_id;
  outcome = verdict_name decision.outcome;
  fact_id = none;
  existing_fact_id = none;
  observation_id = none;
  replayed = false;
  detail_json = service.add_details "{}" (("policy_reason", of_text decision.reason) ∷ []);
}

unfoldable pub settle_factless :
    Service
    → ConnectionContext
    → WriteRequest
    → String
    → Surroundings
    → PolicyDecision
    → Exec Vault WriteOutcome
unfolding factless_decision_is_durable record_factless_decision
settle_factless service context r digest at decision =
    if factless_decision_is_durable decision
    then record_factless_decision service context r digest at decision
    else pure (ephemeral_factless_outcome service at decision)
