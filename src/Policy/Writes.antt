-- ===== src/Policy/Writes.antt =====
-- `MemoryPolicy.evaluate_write` and `default_credential_screen`; `WriteRequest`
-- (enfold/provenance.py). What `re` finds with the patterns of _CREDENTIAL_SHAPES is a parameter.
use holographic_plus.Base.{
  ℕ, String, Bool, false, not, ◌&&◌, ◌||◌, Option, none, some, List, [], ◌∷◌, ◌++◌, str_eq,
  is_empty, value_or, concat, select, if◌then◌else◌, Result, ok, ◌>>=◌,
}
use holographic_plus.Policy.Scopes.{
  is_one_of, validate_scope, validate_sensitivity, validate_relation, validate_correction_status,
}
use holographic_plus.Policy.Grants.{MemoryPolicy, Grants, granted, can_assert_correction}

pub record WriteRequest : Type 0 where
  pub idempotency_key : String
  pub content : String
  pub source_type : String
  pub category : String
  pub tags : String
  pub trust_score : ℕ
  pub source_authority : ℕ
  pub source_uri : Option String
  pub observation_content : Option String
  pub asserted_by : Option String
  pub performed_by : Option String
  pub observed_at : Option String
  pub scope : String
  pub sensitivity : String
  pub correction_status : Option String
  pub evidence_excerpt : Option String
  pub relation : String
  pub metadata_json : String
  pub supersede_fact_id : Option ℕ
  pub operation : String

pub data Verdict : Type 0 where
  rejected needs_review : Verdict

pub record PolicyDecision : Type 0 where
  pub outcome : Verdict
  pub reason : String

abbrev decide : Verdict → String → Option PolicyDecision
decide outcome reason = some (record { outcome = outcome; reason = reason })

-- `"\n".join(…)`
unfoldable pub join_lines : List String → String
join_lines [] = ""
join_lines (part ∷ []) = part
join_lines (part ∷ next ∷ rest) = concat part (concat "\n" (join_lines (next ∷ rest)))

-- The text that is screened: the non-empty parts of the request, and the extra ones.
unfoldable pub screened_text : WriteRequest → List String → String
unfolding join_lines
screened_text r extra = join_lines (
    select (λ part. not (is_empty part))
      ((r.content
          ∷ value_or r.observation_content ""
          ∷ value_or r.evidence_excerpt ""
          ∷ value_or r.source_uri ""
          ∷ value_or r.asserted_by ""
          ∷ r.category
          ∷ r.tags
          ∷ r.metadata_json
          ∷ [])
        ++ extra))

abbrev pub Screen : Type 0
Screen = WriteRequest → Option PolicyDecision

unfoldable pub default_credential_screen :
    (String → Bool) → WriteRequest → List String → Option PolicyDecision
unfolding screened_text
default_credential_screen shape_found r extra =
    if shape_found (screened_text r extra)
    then decide rejected "credential-shaped content"
    else none

-- The first decision that a screen gives.
unfoldable pub run_screens : List Screen → WriteRequest → Option PolicyDecision
run_screens [] r = none
run_screens (screen ∷ screens) r =
    let later = run_screens screens r in elim (screen r) [ none ↦ later | some d ↦ some d ]

-- `client_id is not None and "sensitive" in self._grants.get(client_id, ())`
unfoldable pub may_write_sensitive : Grants → Option String → Bool
unfolding granted
may_write_sensitive grants none = false
may_write_sensitive grants (some client_id) =
    is_one_of (value_or (granted grants client_id) []) "sensitive"

unfoldable pub may_correct : MemoryPolicy → Option String → Bool
unfolding can_assert_correction
may_correct policy none = false
may_correct policy (some client_id) = can_assert_correction policy client_id

abbrev pub is_human_status : Option String → Bool
is_human_status none = false
is_human_status (some status) = is_one_of ("human_corrected" ∷ "human_confirmed" ∷ []) status

unfoldable pub claims_correction : WriteRequest → Bool
claims_correction r =
    str_eq r.source_type "human_correction"
    || str_eq r.relation "corrects"
    || is_human_status r.correction_status

unfoldable pub is_secret : WriteRequest → Bool
is_secret r = str_eq r.scope "secret" || str_eq r.sensitivity "secret"

module _ (shape_found : String → Bool) (screens : List Screen) where
  -- After the checks of the vocabularies.
  unfoldable pub decide_write :
      MemoryPolicy → WriteRequest → Option String → List String → Option PolicyDecision
  unfolding default_credential_screen run_screens may_write_sensitive may_correct claims_correction
      is_secret
  decide_write policy r client_id sensitive_fields =
      let screened = run_screens screens r in
      if is_secret r
      then decide rejected "secret durable writes are disabled"
      else if str_eq r.sensitivity "sensitive" && not (may_write_sensitive policy.grants client_id)
      then decide rejected "sensitive durable write is not authorized"
      else if claims_correction r && not (may_correct policy client_id)
      then decide needs_review "client is not authorized to assert human correction"
      else (elim (default_credential_screen shape_found r sensitive_fields) [
        | some d ↦ some d
        | none ↦ screened
      ])

  unfoldable pub evaluate_write :
      MemoryPolicy → WriteRequest → Option String → List String → Result (Option PolicyDecision)
  unfolding decide_write
  evaluate_write policy r client_id sensitive_fields = do
    scope ← validate_scope r.scope
    sensitivity ← validate_sensitivity r.sensitivity
    relation ← validate_relation r.relation
    status ← validate_correction_status r.correction_status
    ok (decide_write policy r client_id sensitive_fields)
