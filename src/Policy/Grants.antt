-- ===== src/Policy/Grants.antt =====
-- `MemoryPolicy.__init__`, `authorize_context`, `can_assert_correction`, `can_resolve_conflicts`;
-- `ConnectionContext` (enfold/provenance.py). A dictionary is the list of its items.
use holographic_plus.Base.{
  String, Bool, true, false, not, ◌&&◌, Option, none, some, List, [], ◌∷◌, str_eq, is_empty, strip,
  select, if◌then◌else◌, Result, ok, raise, value_error, unknown_client, permission_error, require,
  ◌>>=◌, ◌>>◌,
}
use holographic_plus.Policy.Scopes.{is_one_of, validate_scope}

pub record ConnectionContext : Type 0 where
  pub client_id : String
  pub surface : String
  pub agent_id : String
  pub session_id : String
  pub display_name : Option String
  pub parent_agent_id : Option String
  pub project_root : Option String
  pub repository : Option String
  pub branch : Option String
  pub commit_sha : Option String
  pub capabilities : List String
  pub access_scopes : List String
  pub started_at : Option String

abbrev pub Grants : Type 0
Grants = List (String × List String)

pub record MemoryPolicy : Type 0 where
  pub grants : Grants
  pub correction_authorities : List String
  pub conflict_resolution_authorities : List String

unfoldable pub granted : Grants → String → Option (List String)
granted [] client_id = none
granted ((key, scopes) ∷ rest) client_id =
    let found = granted rest client_id in if str_eq key client_id then some scopes else found

-- `normalized[key] = validated`
unfoldable pub put : String → List String → Grants → Grants
put key scopes [] = (key, scopes) ∷ []
put key scopes ((key', scopes') ∷ rest) =
    let after = put key scopes rest in
    if str_eq key' key then (key, scopes) ∷ rest else (key', scopes') ∷ after

unfoldable pub validate_scopes : List String → Result (List String)
validate_scopes [] = ok []
validate_scopes (scope ∷ scopes) = do
  valid ← validate_scope scope
  rest ← validate_scopes scopes
  ok (valid ∷ rest)

-- `tuple(dict.fromkeys(…))`: the first of each.
unfoldable pub distinct : List String → List String → List String
distinct seen [] = []
distinct seen (scope ∷ scopes) =
    let fresh = distinct (scope ∷ seen) scopes in
    let rest = distinct seen scopes in if is_one_of seen scope then rest else scope ∷ fresh

abbrev pub is_no_scope : List String → Bool
is_no_scope [] = true
is_no_scope (scope ∷ scopes) = false

unfoldable pub normalize_grants : Grants → Grants → Result Grants
unfolding validate_scopes distinct put
normalize_grants normalized [] = ok normalized
normalize_grants normalized ((client_id, scopes) ∷ rest) = do
  require (not (is_empty (strip client_id))) value_error
  valid ← validate_scopes scopes
  require (not (is_no_scope (distinct [] valid))) value_error
  normalize_grants (put (strip client_id) (distinct [] valid) normalized) rest

unfoldable pub make_policy : Grants → List String → List String → Result MemoryPolicy
unfolding normalize_grants
make_policy client_scope_grants correction_authorities conflict_resolution_authorities = do
  normalized ← normalize_grants [] client_scope_grants
  ok (record {
    grants = normalized;
    correction_authorities = correction_authorities;
    conflict_resolution_authorities = conflict_resolution_authorities;
  })

abbrev pub legacy_extraction_client_id : String
legacy_extraction_client_id = "legacy-extract-queue"

-- The grants of a client; the reserved identity has one while an extraction batch is being written.
unfoldable pub grants_of : MemoryPolicy → Bool → String → Option (List String)
unfolding granted
grants_of policy extracting client_id = elim (granted policy.grants client_id) [
  | some scopes ↦ some scopes
  | none ↦
      if str_eq client_id legacy_extraction_client_id && extracting
      then some ("private" ∷ [])
      else none
]

abbrev pub or_unknown : Option (List String) → Result (List String)
or_unknown none = raise unknown_client
or_unknown (some scopes) = ok scopes

-- `replace` runs `__post_init__` once more: the context is one that it made, so that its texts are
-- stripped and its lists sorted and without repetition, and so is what is selected of them.
unfoldable pub authorize_context :
    MemoryPolicy → Bool → ConnectionContext → Result ConnectionContext
unfolding grants_of validate_scopes
authorize_context policy extracting context = do
  grants ← or_unknown (grants_of policy extracting context.client_id)
  requested ← validate_scopes context.access_scopes
  let effective = select (is_one_of grants) requested
  require (not (is_no_scope effective)) permission_error
  ok (record context { access_scopes = effective })

unfoldable pub can_assert_correction : MemoryPolicy → String → Bool
can_assert_correction policy client_id = is_one_of policy.correction_authorities client_id

unfoldable pub can_resolve_conflicts : MemoryPolicy → String → Bool
can_resolve_conflicts policy client_id = is_one_of policy.conflict_resolution_authorities client_id
