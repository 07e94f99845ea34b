-- ===== src/WriteService/Typed.antt =====
-- The checks before the transaction: `_validate_state_candidate`, `_extracted_typed_fields`, and
-- the beginning of `write`.
use holographic_plus.Base.{
  ℕ, String, Bool, true, false, not, ◌&&◌, Option, none, some, [], ◌∷◌, str_eq, ◌==◌, leb, is_none,
  is_empty, strip, same_text, if◌then◌else◌, Result, ok, raise, value_error, require, ◌>>=◌, ◌>>◌,
}
use holographic_plus.FactStore.{full_authority, default_authority}
use holographic_plus.Policy.Scopes.{is_one_of}
use holographic_plus.Policy.Grants.{ConnectionContext, authorize_context}
use holographic_plus.Policy.Writes.{WriteRequest}
use holographic_plus.StateSlots.Candidate.{StateCandidate, make_candidate}
use holographic_plus.StateSlots.Conflicts.{Ambient}
use holographic_plus.WriteService.Rows.{
  Service, Surroundings, Decoded, TypedMetadata, absent, malformed, metadata,
}

pub record ExtractedTypedFields : Type 0 where
  pub kind : String
  pub subject_key : String
  pub predicate_key : String
  pub object_value : Option String
  pub valid_from : Option String
  pub confidence : ℕ

unfoldable pub validate_state_candidate : WriteRequest → Option StateCandidate → Result (Unit {0})
validate_state_candidate r none = ok tt
validate_state_candidate r (some c) = do
  require (str_eq c.memory_kind "state") value_error
  require (str_eq c.content r.content) value_error
  require (str_eq c.scope r.scope) value_error
  require (c.source_authority == r.source_authority) value_error
  require (is_none r.supersede_fact_id) value_error

abbrev is_filled : Option String → Bool
is_filled none = true
is_filled (some s) = not (is_empty (strip s))

unfoldable pub is_valid_metadata : TypedMetadata → Bool
unfolding full_authority
is_valid_metadata t =
    is_one_of ("state" ∷ "preference" ∷ "commitment" ∷ "event" ∷ []) t.kind
    && leb t.confidence full_authority
    && is_filled t.object_value
    && is_filled t.valid_from

abbrev pub fields_of : TypedMetadata → StateCandidate → ExtractedTypedFields
fields_of t c = record {
  kind = t.kind;
  subject_key = c.subject_key;
  predicate_key = c.predicate_key;
  object_value = c.object_value;
  valid_from = c.valid_from;
  confidence = t.confidence;
}

abbrev has_slot : ExtractedTypedFields → Option StateCandidate → Bool
has_slot fields none = false
has_slot fields (some c) =
    str_eq c.subject_key fields.subject_key
    && str_eq c.predicate_key fields.predicate_key
    && same_text c.object_value fields.object_value

-- An extracted state goes to its exact slot, and nothing else that is extracted goes to one.
unfoldable pub fits_candidate : ExtractedTypedFields → Option StateCandidate → Bool
fits_candidate fields candidate =
    if str_eq fields.kind "state" then has_slot fields candidate else is_none candidate

module _ (service : Service) (env : Ambient) where
  unfoldable pub typed_fields_of :
      WriteRequest → Option StateCandidate → Decoded → Result (Option ExtractedTypedFields)
  unfolding is_valid_metadata fits_candidate make_candidate
  typed_fields_of r candidate absent = ok none
  typed_fields_of r candidate malformed = raise value_error
  typed_fields_of r candidate (metadata t) = do
    require (is_valid_metadata t) value_error
    normalized ← make_candidate env.casefold env.from_iso (record {
      content = r.content;
      subject_key = t.subject_key;
      predicate_key = t.predicate_key;
      object_value = t.object_value;
      source_authority = default_authority;
      valid_from = t.valid_from;
      memory_kind = "state";
      scope = r.scope;
      valid_to = none;
    })
    require (fits_candidate (fields_of t normalized) candidate) value_error
    ok (some (fields_of t normalized))

  unfoldable pub extracted_typed_fields :
      WriteRequest → Option StateCandidate → Result (Option ExtractedTypedFields)
  unfolding typed_fields_of
  extracted_typed_fields r candidate =
      if str_eq r.source_type "automatic_extraction"
      then typed_fields_of r candidate (service.decode_typed r.metadata_json)
      else ok none

-- The context that the policy grants, and the typed fields of the request.
unfoldable pub prelude :
    Service
    → Surroundings
    → ConnectionContext
    → WriteRequest
    → Option StateCandidate
    → Result (ConnectionContext × Option ExtractedTypedFields)
unfolding authorize_context validate_state_candidate extracted_typed_fields
prelude service at given r candidate = do
  context ← authorize_context service.policy service.extracting given
  validate_state_candidate r candidate
  typed ← extracted_typed_fields service at.env r candidate
  ok (context, typed)
