-- ===== src/WriteService/Untyped.antt =====
-- The statements of an untyped write: `_load_untyped_current_facts` to `_open_untyped_write_conflict`,
-- `_find_untyped_near_duplicate` to `_supersede_near_duplicate`, `_supersede_if_requested`,
-- `_authorize_fact_scope`.
use Prim.Native.Char.{code}
use holographic_plus.Base.{
  ℕ, String, Bool, true, false, not, ◌&&◌, ◌||◌, Option, none, some, List, [], ◌∷◌, str_eq, text_is,
  ltb, ◌==◌, is_none, is_some, value_or, find, select, length, if◌then◌else◌, runtime_error,
  value_error, permission_error, Result, ok, raise,
}
use holographic_plus.Exec.{Exec, pure, gets, check, lift, ◌>>=◌, ◌>>◌}
use holographic_plus.FactStore.{Fact, Store, has_fact_id, is_current}
use holographic_plus.Policy.Grants.{distinct}
use holographic_plus.Policy.Writes.{WriteRequest, is_human_status}
use holographic_plus.Temporal.Words.{common, content_tokens, norm_token_sequence}
use holographic_plus.StateSlots.Tables.{update_facts}
use holographic_plus.StateSlots.Conflicts.{
  Ambient, open_untyped_conflict, add_untyped_conflict_member, join_untyped,
}
use holographic_plus.WriteService.Rows.{Service, FactWriteResult, NearDuplicateCandidate, Query}
use holographic_plus.WriteService.Contradict.{
  untyped_contents_contradict, guess_untyped_conflict_slot,
}
use holographic_plus.WriteService.Slots.{is_current_fact, is_target}

pub record UntypedContradiction : Type 0 where
  pub fact_id : ℕ
  pub content : String
  pub subject_key : String
  pub predicate_key : String

-- Current, in no conflict, and not typed state.
unfoldable pub is_untyped_current : String → Fact → Bool
unfolding is_current
is_untyped_current scope f =
    str_eq f.scope scope
    && is_current f
    && is_none f.conflict_group
    && not (text_is f.memory_kind "state")

abbrev pub labelled : Fact → Result (String × String) → Option UntypedContradiction
labelled f (raise e) = none
labelled f (ok (subject, predicate)) = some (record {
  fact_id = f.fact_id;
  content = f.content;
  subject_key = subject;
  predicate_key = predicate;
})

module _ (service : Service) (env : Ambient) (r : WriteRequest) where
  abbrev tokens : String → List String
  tokens text = norm_token_sequence service.lower text

  -- The contradiction with one fact, unless its slot has no name.
  unfoldable pub contradiction_with : Fact → Option UntypedContradiction
  unfolding untyped_contents_contradict guess_untyped_conflict_slot norm_token_sequence
  contradiction_with f =
      if untyped_contents_contradict service.lower r.content f.content
      then labelled f
          (guess_untyped_conflict_slot env.casefold (tokens r.content) (tokens f.content))
      else none

  -- `len(a & b)`
  unfoldable pub overlap : UntypedContradiction → ℕ
  unfolding content_tokens norm_token_sequence distinct
  overlap m =
      length (
        distinct []
          (common (content_tokens (tokens r.content)) (content_tokens (tokens m.content))))

  abbrev pub stronger :
      UntypedContradiction → Option UntypedContradiction → Option UntypedContradiction
  stronger m none = some m
  stronger m (some best) =
      if ltb (overlap m) (overlap best) || (overlap m == overlap best && ltb best.fact_id m.fact_id)
      then some best
      else some m

  unfoldable pub best_contradiction : List Fact → Option UntypedContradiction
  unfolding contradiction_with overlap
  best_contradiction [] = none
  best_contradiction (f ∷ facts) =
      let rest = best_contradiction facts in
      if str_eq f.content r.content
      then rest
      else (elim (contradiction_with f) [ none ↦ rest | some m ↦ stronger m rest ])

  unfoldable pub find_untyped_contradiction : List Fact → Option UntypedContradiction
  unfolding is_untyped_current best_contradiction
  find_untyped_contradiction facts = best_contradiction (select (is_untyped_current r.scope) facts)

  abbrev pub contradiction_of : Option Fact → Option UntypedContradiction
  contradiction_of none = none
  contradiction_of (some f) = contradiction_with f

  unfoldable pub contradiction_from_near_duplicate :
      List Fact → NearDuplicateCandidate → Option UntypedContradiction
  unfolding contradiction_with
  contradiction_from_near_duplicate facts candidate =
      contradiction_of (find (has_fact_id candidate.fact_id) facts)

  unfoldable pub open_untyped_write_conflict : UntypedContradiction → ℕ → String → Exec Store String
  unfolding is_target
  open_untyped_write_conflict m new_id now = do
    opened ←
        open_untyped_conflict env (m.fact_id ∷ []) r.scope m.subject_key m.predicate_key (some now)
          (service.reason_json "untyped contradiction")
    changed ←
        update_facts (is_target new_id r.scope)
          (join_untyped env opened.conflict_id m.subject_key m.predicate_key)
    check (changed == 1) runtime_error
    add_untyped_conflict_member opened.conflict_id new_id
    pure opened.conflict_id

-- `<` on texts, by code points.
unfoldable pub text_less : String → String → Bool
text_less s String.[] = false
text_less String.[] (String.◌∷◌ d t) = true
text_less (String.◌∷◌ c s) (String.◌∷◌ d t) =
    let rest = text_less s t in ltb (code c) (code d) || (code c == code d && rest)

-- `(trust_score, created_at)`
unfoldable pub precedes : ℕ → String → ℕ → String → Bool
unfolding text_less
precedes trust created trust' created' =
    ltb trust trust' || (trust == trust' && text_less created created')

abbrev pub stronger_candidate :
    NearDuplicateCandidate → Option NearDuplicateCandidate → Option NearDuplicateCandidate
stronger_candidate c none = some c
stronger_candidate c (some best) =
    if precedes c.trust_score c.created_at best.trust_score best.created_at
      || (c.trust_score == best.trust_score
          && str_eq c.created_at best.created_at
          && ltb c.fact_id best.fact_id)
    then some best
    else some c

unfoldable pub best_candidate : List NearDuplicateCandidate → Option NearDuplicateCandidate
unfolding precedes
best_candidate [] = none
best_candidate (c ∷ cs) = stronger_candidate c (best_candidate cs)

unfoldable pub find_untyped_near_duplicate :
    Service → WriteRequest → Query → List Fact → Option NearDuplicateCandidate
unfolding best_candidate
find_untyped_near_duplicate service r none facts = none
find_untyped_near_duplicate service r (some query) facts =
    if not service.near_dedup_enabled
      || is_none service.query_embedder
      || is_none service.embedding_identity
    then none
    else best_candidate (service.near_search r query facts)

abbrev pub protected_found : WriteRequest → Option Fact → Result Bool
protected_found r none = raise runtime_error
protected_found r (some f) = ok (
    text_is f.memory_kind "state"
    || is_human_status f.correction_status
    || ltb r.source_authority (value_or f.source_authority 0))

unfoldable pub near_duplicate_candidate_is_protected : ℕ → WriteRequest → List Fact → Result Bool
unfolding is_current
near_duplicate_candidate_is_protected i r facts = protected_found r (find (is_current_fact i) facts)

abbrev pub retire_for : String → ℕ → Fact → Fact
retire_for now survivor f = record f {
  invalid_at = some now;
  expired_at = some now;
  superseded_by = some survivor;
}

unfoldable pub supersede_near_duplicate : ℕ → ℕ → String → Exec Store (Unit {0})
unfolding is_current
supersede_near_duplicate loser survivor now = do
  changed ← update_facts (is_current_fact loser) (retire_for now survivor)
  check (changed == 1) runtime_error

abbrev pub near_dedup_result : ℕ → NearDuplicateCandidate → FactWriteResult → FactWriteResult
near_dedup_result survivor candidate inserted = record {
  fact_id = survivor;
  outcome = "near_dedup";
  existing_fact_id = some candidate.fact_id;
  detail_json = inserted.detail_json;
}

-- With the fact that is to be embedded.
unfoldable pub merge_by :
    Bool
    → FactWriteResult
    → NearDuplicateCandidate
    → String
    → Exec Store (FactWriteResult × Option ℕ)
unfolding supersede_near_duplicate
merge_by true inserted candidate now = do
  supersede_near_duplicate candidate.fact_id inserted.fact_id now
  pure (near_dedup_result inserted.fact_id candidate inserted, some inserted.fact_id)
merge_by false inserted candidate now = do
  supersede_near_duplicate inserted.fact_id candidate.fact_id now
  pure (near_dedup_result candidate.fact_id candidate inserted, none)

unfoldable pub merge_near_duplicate :
    FactWriteResult
    → NearDuplicateCandidate
    → WriteRequest
    → String
    → Exec Store (FactWriteResult × Option ℕ)
unfolding near_duplicate_candidate_is_protected precedes merge_by
merge_near_duplicate inserted candidate r now = do
  facts ← gets (λ (s : Store). s.facts)
  protected ← lift (near_duplicate_candidate_is_protected candidate.fact_id r facts)
  merge_by (not protected && precedes candidate.trust_score candidate.created_at r.trust_score now)
      inserted candidate now

abbrev pub scope_of : Option Fact → Result String
scope_of none = raise runtime_error
scope_of (some f) = ok f.scope

abbrev pub is_requestable : String → Option Fact → Bool
is_requestable scope none = false
is_requestable scope (some f) =
    str_eq f.scope scope && not (text_is f.memory_kind "state" || is_some f.conflict_group)

abbrev pub is_replaced : ℕ → String → Fact → Bool
is_replaced i scope f = has_fact_id i f && str_eq f.scope scope && is_current f

unfoldable pub supersede_if_requested : Option ℕ → ℕ → String → Exec Store Bool
unfolding is_current
supersede_if_requested none new_id now = pure false
supersede_if_requested (some old_id) new_id now = do
  check (not (old_id == new_id)) value_error
  replacement ← gets (λ (s : Store). find (has_fact_id new_id) s.facts)
  scope ← lift (scope_of replacement)
  target ← gets (λ (s : Store). find (has_fact_id old_id) s.facts)
  check (is_requestable scope target) value_error
  changed ← update_facts (is_replaced old_id scope) (retire_for now new_id)
  check (changed == 1) value_error
  pure true

abbrev pub check_scope : String → Option Fact → Result (Unit {0})
check_scope scope none = raise runtime_error
check_scope scope (some f) = if str_eq f.scope scope then ok tt else raise permission_error

unfoldable pub authorize_fact_scope : ℕ → String → Exec Store (Unit {0})
authorize_fact_scope i scope = do
  found ← gets (λ (s : Store). find (has_fact_id i) s.facts)
  lift (check_scope scope found)
