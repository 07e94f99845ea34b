-- ===== src/WriteService/Queries.antt =====
-- `_find_untyped_exact_duplicate` and `_prepare_near_dedup_query`: what a write looks up before its
-- transaction.
use holographic_plus.Base.{
  String, Bool, not, ◌&&◌, ◌||◌, Option, none, some, List, [], ◌∷◌, str_eq, text_is, is_none,
  is_some, find, if◌then◌else◌, Result, ok, ◌>>=◌,
}
use holographic_plus.FactStore.{Fact, is_current}
use holographic_plus.Policy.Scopes.{is_one_of, scope_authorized}
use holographic_plus.Policy.Grants.{ConnectionContext}
use holographic_plus.Policy.Writes.{WriteRequest, PolicyDecision, evaluate_write}
use holographic_plus.StateSlots.Candidate.{StateCandidate}
use holographic_plus.WriteService.Rows.{Vault, Service, BatchItem, Query}
use holographic_plus.WriteService.Log.{load_prior}
use holographic_plus.WriteService.Plan.{supersession_policy}

-- An exact active duplicate in the scope.
unfoldable pub find_untyped_exact_duplicate : WriteRequest → List Fact → Option Fact
unfolding is_current
find_untyped_exact_duplicate r facts =
    find
      (λ f.
        str_eq f.scope r.scope
        && str_eq f.content r.content
        && is_current f
        && is_none f.conflict_group)
      facts

abbrev pub embed_with : Option (String → Query) → String → Query
embed_with none text = none
embed_with (some embedder) text = embedder text

-- With the decision of the policy on the request alone.
unfoldable pub needs_no_query :
    Service
    → ConnectionContext
    → WriteRequest
    → Option StateCandidate
    → Vault
    → Option PolicyDecision
    → Bool
unfolding scope_authorized supersession_policy load_prior find_untyped_exact_duplicate
needs_no_query service context r candidate v decision =
    is_some candidate
    || is_some r.supersede_fact_id
    || is_some decision
    || not (scope_authorized r.scope context.access_scopes)
    || (str_eq r.sensitivity "sensitive" && not (is_one_of context.access_scopes "sensitive"))
    || is_some (supersession_policy r none none v.store.facts)
    || not service.near_dedup_enabled
    || is_none service.query_embedder
    || is_none service.embedding_identity
    || is_some (load_prior context.client_id r.idempotency_key v)
    || is_some (find_untyped_exact_duplicate r v.store.facts)
    || text_is r.correction_status "unreviewed"

unfoldable pub prepare_near_dedup_query :
    Service → ConnectionContext → WriteRequest → Option StateCandidate → Vault → Result Query
unfolding evaluate_write needs_no_query
prepare_near_dedup_query service context r candidate v = do
  decision ←
      evaluate_write service.shape_found service.screens service.policy r (some context.client_id)
        []
  ok (
      if needs_no_query service context r candidate v decision
      then none
      else embed_with service.query_embedder r.content)

unfoldable pub prepare_queries :
    Service → ConnectionContext → List BatchItem → Vault → Result (List (BatchItem × Query))
unfolding prepare_near_dedup_query
prepare_queries service context [] v = ok []
prepare_queries service context (item ∷ items) v =
    prepare_near_dedup_query service context item.request item.candidate v >>= λ query.
    prepare_queries service context items v >>= λ rest. ok ((item, query) ∷ rest)
