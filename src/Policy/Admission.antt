-- ===== src/Policy/Admission.antt =====
-- Exactly which writes the policy admits.
use holographic_plus.Base.{
  ◌≡◌, refl, ◌↔◌, String, Bool, true, false, not, ◌&&◌, ◌||◌, Option, none, some, List, [], ◌∷◌,
  str_eq, all, is_none, if◌then◌else◌, arith, Result, ok, raise, value_error,
}
use holographic_plus.Policy.Scopes.{
  is_one_of, sensitivities, relations, is_scope, is_correction_status, validate_scope,
  validate_sensitivity, validate_relation, validate_correction_status,
}
use holographic_plus.Policy.Grants.{MemoryPolicy}
use holographic_plus.Policy.Writes.{
  WriteRequest, PolicyDecision, Screen, screened_text, default_credential_screen, run_screens,
  may_write_sensitive, may_correct, claims_correction, is_secret, decide_write, evaluate_write,
}

-- Every field is in its vocabulary.
unfoldable pub is_in_vocabulary : WriteRequest → Bool
is_in_vocabulary r =
    is_scope r.scope
    && is_one_of sensitivities r.sensitivity
    && is_one_of relations r.relation
    && is_correction_status r.correction_status

-- What a write needs, each thing on its own: nothing secret, a grant for what is sensitive, an
-- authority for what claims a correction, no credential in its text, and no screen against it.
unfoldable pub is_admissible :
    (String → Bool) → List Screen → MemoryPolicy → WriteRequest → Option String → List String → Bool
is_admissible shape_found screens policy r client_id fields =
    not (is_secret r)
    && (not (str_eq r.sensitivity "sensitive") || may_write_sensitive policy.grants client_id)
    && (not (claims_correction r) || may_correct policy client_id)
    && not (shape_found (screened_text r fields))
    && all (λ (screen : Screen). is_none (screen r)) screens

screens-none :
    (screens : List Screen) (r : WriteRequest)
    → is_none (run_screens screens r) ≡ all (λ (screen : Screen). is_none (screen r)) screens
unfolding run_screens
screens-none [] r = refl
screens-none (screen ∷ screens) r = ground (arith, screens-none screens r)

admits :
    (shape_found : String → Bool) (screens : List Screen) (policy : MemoryPolicy) (r : WriteRequest)
    (client_id : Option String) (fields : List String)
    → is_none (decide_write shape_found screens policy r client_id fields)
      ≡ is_admissible shape_found screens policy r client_id fields
unfolding decide_write default_credential_screen is_admissible
admits shape_found screens policy r client_id fields = ground (arith, screens-none screens r)

evaluate_by :
    (shape_found : String → Bool) (screens : List Screen) (policy : MemoryPolicy) (r : WriteRequest)
    (client_id : Option String) (fields : List String)
    → evaluate_write shape_found screens policy r client_id fields ≡ (
        if is_in_vocabulary r
        then ok (decide_write shape_found screens policy r client_id fields)
        else raise value_error)
unfolding evaluate_write is_in_vocabulary validate_scope validate_sensitivity validate_relation
    validate_correction_status
evaluate_by shape_found screens policy r client_id fields = ground arith

none_iff :
    (b : Bool) (d : Option PolicyDecision)
    → ((if b then ok d else raise value_error) ≡ Result.ok none) ↔ ((b && is_none d) ≡ true)
none_iff true none = (λ h. refl, λ h. refl)
none_iff true (some d) = (λ h. cc h, λ h. cc h)
none_iff false d = (λ h. cc h, λ h. cc h)

-- The policy lets a write through without a decision exactly when every field is in its vocabulary,
-- nothing in it is secret, the client is granted what is sensitive, has the authority for what
-- claims to be a human correction, no credential shape is in its text, and no screen objects.
pub evaluate_write-none_iff :
    (shape_found : String → Bool) (screens : List Screen) (policy : MemoryPolicy) (r : WriteRequest)
    (client_id : Option String) (fields : List String)
    → (evaluate_write shape_found screens policy r client_id fields ≡ ok none)
      ↔ ((is_in_vocabulary r && is_admissible shape_found screens policy r client_id fields) ≡ true)
evaluate_write-none_iff shape_found screens policy r client_id fields =
    rw
      (
        evaluate_by shape_found screens policy r client_id fields,
        ← admits shape_found screens policy r client_id fields,
      )
      (none_iff (is_in_vocabulary r) (decide_write shape_found screens policy r client_id fields))
