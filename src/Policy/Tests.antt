-- ===== src/Policy/Tests.antt =====
-- Runs of the policy on small data.
use holographic_plus.Base.{
  ◌≡◌, ◌↔◌, refl, String, Bool, true, false, ◌&&◌, none, some, List, [], ◌∷◌, all, select, str_eq,
  strip, codes, contains, take_chars, ok,
}
use holographic_plus.Policy.Scopes.{
  is_one_of, is_scope, is_token, run_scope_for_session, scope_authorized, validate_scope,
  validate_sensitivity, validate_relation, validate_correction_status,
}
use holographic_plus.StateSlots.Keys.{all_chars}
use holographic_plus.Policy.Grants.{
  ConnectionContext, MemoryPolicy, make_policy, grants_of, is_no_scope, authorize_context,
}
use holographic_plus.Policy.Writes.{WriteRequest, needs_review, evaluate_write}
use holographic_plus.Policy.RunScopes.{run_scope_for_session-authorized}
use holographic_plus.Policy.Effective.{authorize_context-effective, authorize_context-again}
use holographic_plus.Policy.Admission.{is_in_vocabulary, is_admissible, evaluate_write-none_iff}

unfoldable program : Unit {0}
unfolding select str_eq strip codes contains take_chars is_scope is_token run_scope_for_session
    scope_authorized validate_scope all_chars validate_sensitivity validate_relation
    validate_correction_status make_policy grants_of authorize_context evaluate_write
    is_in_vocabulary is_admissible
program = tt

abbrev policy : MemoryPolicy
policy = record {
  grants = ("claude", "private" ∷ "work" ∷ []) ∷ [];
  correction_authorities = "owner" ∷ [];
  conflict_resolution_authorities = [];
}

abbrev context : List String → ConnectionContext
context scopes = record {
  client_id = "claude";
  surface = "mcp";
  agent_id = "agent";
  session_id = "s1";
  display_name = none;
  parent_agent_id = none;
  project_root = none;
  repository = none;
  branch = none;
  commit_sha = none;
  capabilities = [];
  access_scopes = scopes;
  started_at = none;
}

narrowed :
    authorize_context policy false (context ("private" ∷ "sensitive" ∷ []))
    ≡ ok (context ("private" ∷ []))
unfolding program
narrowed = refl

authorize_context-effective_example :
    (grants : List String) × (grants_of policy false "claude" ≡ some grants)
    × (context ("private" ∷ [])
        ≡ context (select (is_one_of grants) ("private" ∷ "sensitive" ∷ [])))
    × (is_no_scope ("private" ∷ []) ≡ false)
    × (all is_scope ("private" ∷ []) ≡ true)
authorize_context-effective_example =
    authorize_context-effective policy false (context ("private" ∷ "sensitive" ∷ []))
      {out = context ("private" ∷ [])} narrowed

authorize_context-again_example :
    authorize_context policy false (context ("private" ∷ [])) ≡ ok (context ("private" ∷ []))
authorize_context-again_example =
    authorize_context-again policy false (context ("private" ∷ "sensitive" ∷ []))
      {out = context ("private" ∷ [])} narrowed

abbrev hash : String → String
hash s = "0123456789abcdef0123456789abcdef"

token_hash : (s : String) → is_token (take_chars 24 (hash s)) ≡ true
unfolding program
token_hash s = refl

run_scope_for_session-authorized_example :
    (is_scope (run_scope_for_session hash "a b") ≡ true)
    × (scope_authorized (run_scope_for_session hash "a b") ("private" ∷ []) ≡ true)
unfolding program
run_scope_for_session-authorized_example =
    run_scope_for_session-authorized hash "a b" ("private" ∷ []) token_hash refl

abbrev request : WriteRequest
request = record {
  idempotency_key = "k";
  content = "uses vim";
  source_type = "conversation";
  category = "general";
  tags = "";
  trust_score = 1;
  source_authority = 1;
  source_uri = none;
  observation_content = none;
  asserted_by = none;
  performed_by = none;
  observed_at = none;
  scope = "private";
  sensitivity = "normal";
  correction_status = none;
  evidence_excerpt = none;
  relation = "corrects";
  metadata_json = "{}";
  supersede_fact_id = none;
  operation = "add_fact";
}

abbrev has_key : String → Bool
has_key s = contains (codes s) (codes "AKIA")

unauthorized_correction :
    evaluate_write has_key [] policy request (some "claude") []
    ≡ ok (
        some (record {
          outcome = needs_review;
          reason = "client is not authorized to assert human correction";
        }))
unfolding program
unauthorized_correction = refl

evaluate_write-none_iff_example :
    (evaluate_write has_key [] policy request (some "owner") [] ≡ ok none) ↔ (
      (is_in_vocabulary request && is_admissible has_key [] policy request (some "owner") [])
      ≡ true)
evaluate_write-none_iff_example =
    evaluate_write-none_iff has_key [] policy request (some "owner") []
