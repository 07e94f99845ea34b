-- ===== src/WriteService/Tests.antt =====
-- Runs of the write service on small data.
use holographic_plus.Base.{
  ℕ, ◌+◌, ◌≡◌, ◌≤◌, ◌⊎◌, refl, String, true, false, none, some, List, [], ◌∷◌, ◌++◌, find, count,
  select, update_where, str_eq, strip, max, ok, Result, count-append, arith, if◌then◌else◌,
  value_or, ◌&&◌,
}
use holographic_plus.Exec.{transaction, pure, ◌>>=◌}
use holographic_plus.Timestamps.{FromIso, parse_timestamp, intervals_overlap}
use holographic_plus.FactStore.{
  Fact, Store, is_indexed, in_slot, is_current, index_holds, has_fact_id, slot_is_unique,
  default_authority, full_authority,
}
use holographic_plus.FactStore
use holographic_plus.EmbeddingJobs.Outbox.{enqueue_in_transaction}
use holographic_plus.Policy.Scopes.{
  validate_scope, validate_sensitivity, validate_relation, validate_correction_status,
  scope_authorized,
}
use holographic_plus.Policy.Grants.{
  ConnectionContext, MemoryPolicy, authorize_context, distinct, can_resolve_conflicts,
}
use holographic_plus.Policy.Writes.{
  WriteRequest, evaluate_write, claims_correction, is_human_status,
}
use holographic_plus.StateSlots.Candidate.{StateCandidate, SlotDecision, supersede}
use holographic_plus.StateSlots.Decide.{decide_state_write, overlapping_facts}
use holographic_plus.StateSlots.Keys.{required}
use holographic_plus.StateSlots.Reads.{current_state_facts, believed_state_facts, is_open}
use holographic_plus.StateSlots.Index.{UniqueSlots}
use holographic_plus.WriteService.Rows.{
  Vault, Service, Surroundings, WriteOutcome, LogRow, FactWriteResult, BatchItem, empty_vault,
  absent, is_logged, is_observed, is_attached, next_observation_id,
}
use holographic_plus.WriteService.Log.{load_prior}
use holographic_plus.WriteService.Typed.{prelude}
use holographic_plus.WriteService.Plan.{Plan, plan_write}
use holographic_plus.WriteService.Write.{write, write_batch}
use holographic_plus.WriteService.Trail.{IsTraced}
use holographic_plus.WriteService.Histories.{History-IsTraced, begin, then_step, wrote, wrote_batch}
use holographic_plus.WriteService.Atomic.{is_ok}
use holographic_plus.WriteService.Retry.{retried, retry_replays}
use holographic_plus.WriteService.Reused.{reused_key_refused}
use holographic_plus.WriteService.Attributed.{IsUnchanged, write_effects}
use holographic_plus.WriteService.Effects.{IsAttributed}
use holographic_plus.WriteService.Guarded.{automation_spares_protected, is_replaced_by}

abbrev policy : MemoryPolicy
policy = record {
  grants = ("cli", "private" ∷ []) ∷ [];
  correction_authorities = [];
  conflict_resolution_authorities = [];
}

unfoldable next_fact_id : List Fact → ℕ
next_fact_id [] = 1
next_fact_id (f ∷ fs) = max (f.fact_id + 1) (next_fact_id fs)

abbrev plain_fact : WriteRequest → ℕ → Fact
plain_fact r i = record {
  fact_id = i;
  content = r.content;
  scope = r.scope;
  sensitivity = some r.sensitivity;
  memory_kind = none;
  subject_key = none;
  predicate_key = none;
  object_value = none;
  source_authority = some r.source_authority;
  created_at = none;
  valid_from = none;
  valid_to = none;
  invalid_at = none;
  expired_at = none;
  superseded_by = none;
  conflict_group = none;
  correction_status = none;
  confidence = none;
}

-- A writer that inserts a plain fact.
unfoldable insert_fact : WriteRequest → ℕ → List Fact → Result FactWriteResult × List Fact
unfolding next_fact_id
insert_fact r observation_id facts = (
  ok (record {
    fact_id = next_fact_id facts;
    outcome = "inserted";
    existing_fact_id = none;
    detail_json = "{}";
  }),
  facts ++ plain_fact r (next_fact_id facts) ∷ [],
)

unfoldable program : Unit {0}
unfolding count find select update_where str_eq strip transaction ◌>>=◌ write write_batch
    insert_fact parse_timestamp intervals_overlap is_current is_indexed index_holds distinct
    can_resolve_conflicts is_logged is_observed is_attached next_observation_id validate_scope
    validate_sensitivity validate_relation validate_correction_status scope_authorized
    authorize_context evaluate_write claims_correction decide_state_write current_state_facts
    required overlapping_facts believed_state_facts is_open enqueue_in_transaction prelude
    plan_write is_replaced_by load_prior default_authority full_authority slot_is_unique
program = tt

insert_fact-UniqueSlots :
    (r : WriteRequest) (i : ℕ) (facts : List Fact)
    → UniqueSlots facts
    → UniqueSlots (insert_fact r i facts).1
unfolding insert_fact is_indexed count
insert_fact-UniqueSlots r i facts h scope subject predicate = ground (
  arith,
  h scope subject predicate,
  count-append (is_indexed scope subject predicate) facts (plain_fact r (next_fact_id facts) ∷ []),
)

abbrev service : Service
service = record {
  policy = policy;
  extracting = false;
  shape_found = λ s. false;
  screens = [];
  lower = λ s. s;
  fact_writer = insert_fact;
  sha256 = λ s. s;
  embedding_enqueue =
      some (record { document_identity = "model"; embedding_version = "v1"; dimensions = 3 });
  near_dedup_enabled = false;
  embedding_identity = none;
  query_embedder = none;
  near_search = λ r q facts. [];
  request_sha256 = λ client r c. r.content;
  observation_sha256 = λ c r. r.content;
  decode_typed = λ s. absent;
  reason_json = λ s. s;
  add_details = λ s ds. s;
}

abbrev from_iso : FromIso
from_iso s = if str_eq s "d1" then some 1 else if str_eq s "d2" then some 2 else none

abbrev at : Surroundings
at = record {
  env = record {
    from_iso = from_iso;
    casefold = λ s. s;
    json_object = λ s. some s;
    utc_now = "now";
    uuid = "u1";
  };
  recorded_at = "now";
  clock = 5;
  write_id = "w1";
}

abbrev context : String → ConnectionContext
context client_id = record {
  client_id = client_id;
  surface = "shell";
  agent_id = "agent";
  session_id = "s1";
  display_name = none;
  parent_agent_id = none;
  project_root = none;
  repository = none;
  branch = none;
  commit_sha = none;
  capabilities = [];
  access_scopes = "private" ∷ [];
  started_at = none;
}

abbrev request : String → WriteRequest
request content = record {
  idempotency_key = "k1";
  content = content;
  source_type = "agent";
  category = "general";
  tags = "";
  trust_score = 5;
  source_authority = 5;
  source_uri = none;
  observation_content = none;
  asserted_by = none;
  performed_by = none;
  observed_at = none;
  scope = "private";
  sensitivity = "normal";
  correction_status = none;
  evidence_excerpt = none;
  relation = "supports";
  metadata_json = "{}";
  supersede_fact_id = none;
  operation = "add_fact";
}

abbrev outcome : WriteOutcome
outcome = record {
  write_id = "w1";
  outcome = "inserted";
  fact_id = some 1;
  existing_fact_id = none;
  observation_id = some 1;
  replayed = false;
  detail_json = "{}";
}

abbrev row : LogRow
row = record {
  write_id = "w1";
  idempotency_key = "k1";
  client_id = "cli";
  session_id = "s1";
  operation = "add_fact";
  outcome = "inserted";
  fact_id = some 1;
  existing_fact_id = none;
  observation_id = some 1;
  recorded_at = "now";
  request_sha256 = "tea";
  detail_json = "{}";
}

abbrev written : Vault
written = (write service at (context "cli") (request "tea") none empty_vault).1

wrote_tea :
    write service at (context "cli") (request "tea") none empty_vault ≡ (ok outcome, written)
unfolding program
wrote_tea = refl

logged_tea : load_prior "cli" "k1" written ≡ some row
unfolding program
logged_tea = refl

abbrev batch : List BatchItem
batch =
    record {
      at = record at { write_id = "w5" };
      request = record (request "beer") { idempotency_key = "k5" };
      candidate = none;
    }
    ∷ record { at = at; request = request "tea"; candidate = none }
    ∷ []

-- A batch of a write that is new and one that is replayed.
abbrev after_batch : Vault
after_batch = (write_batch service (context "cli") batch (λ o. false) (pure tt) written).1

History-IsTraced_example : IsTraced after_batch
unfolding pure
History-IsTraced_example =
    History-IsTraced service (pure tt) (λ v. refl) (λ v. refl) (λ v. refl)
      (then_step (then_step begin (wrote at (context "cli") (request "tea") none))
        (wrote_batch (context "cli") batch (λ o. false)))

retry_replays_example :
    write service
      (retried at "later" "u2" "later" 9 "w2")
      (context "cli")
      (request "tea")
      none
      written
    ≡ (ok (record outcome { replayed = true }), written)
retry_replays_example =
    retry_replays service at (context "cli") (request "tea") none "later" "u2" "later" 9 "w2"
      empty_vault wrote_tea logged_tea

reused_key_refused_example :
    (is_ok (write service at (context "cli") (request "coffee") none written).0 ≡ false)
    × ((write service at (context "cli") (request "coffee") none written).1 ≡ written)
unfolding program
reused_key_refused_example =
    reused_key_refused service at (context "cli") (request "coffee") none written logged_tea refl

write_effects_example :
    IsUnchanged outcome empty_vault written ⊎ IsAttributed (request "tea") outcome written
write_effects_example =
    write_effects service at (context "cli") (request "tea") none empty_vault wrote_tea

-- A typed value of an earlier date, and the candidate that supersedes it.
abbrev vim : Fact
vim = record (plain_fact (request "vim") 1) {
  memory_kind = some "state";
  subject_key = some "user";
  predicate_key = some "editor";
  valid_from = some "d1";
}

abbrev emacs : StateCandidate
emacs = record {
  content = "emacs";
  subject_key = "user";
  predicate_key = "editor";
  object_value = none;
  source_authority = 5;
  valid_from = some "d2";
  memory_kind = "state";
  scope = "private";
  valid_to = none;
}

abbrev typed_store : Store
typed_store = record FactStore.empty { facts = vim ∷ [] }

abbrev newer : SlotDecision
newer = record {
  action = supersede;
  scope = "private";
  subject_key = "user";
  predicate_key = "editor";
  current_fact_ids = 1 ∷ [];
  target_fact_id = some 1;
  reason = "same authority with newer validity time";
}

abbrev plan : Plan
plan = record { decision = none; candidate = some emacs; state_decision = some newer }

planned :
    plan_write service at.env (context "cli") (request "emacs") (some emacs) typed_store ≡ ok plan
unfolding program
planned = refl

automation_spares_protected_example :
    (c : StateCandidate) × (f : Fact) × (plan.candidate ≡ some c)
    × (find (λ g. has_fact_id 1 g && str_eq g.scope "private") typed_store.facts ≡ some f)
    × (is_human_status f.correction_status ≡ false)
    × (value_or f.source_authority default_authority ≤ c.source_authority)
unfolding program
automation_spares_protected_example =
    automation_spares_protected service at.env (context "cli") (request "emacs") (some emacs)
      typed_store {plan = plan} {d = newer} 1 planned refl refl refl refl (omega arith) refl
