-- ===== src/StateSlots/Conflicts.antt =====
-- `open_state_conflict`, `open_untyped_conflict`, `add_conflict_member`,
-- `add_untyped_conflict_member` and `resolve_state_conflict`. The identifier that `uuid4` gives, the
-- clock's text and the JSON object check are arguments.
use holographic_plus.Base.{
  ℕ, String, Bool, true, false, not, ◌&&◌, Option, none, some, List, [], ◌∷◌, map, is_none,
  is_empty, coalesce, value_or, text_is, str_eq, ◌==◌, any, all, find, select, length,
  if◌then◌else◌, Result, ok, raise, value_error, invariant_error,
}
use holographic_plus.Exec.{Exec, pure, lift, gets, check, ◌>>=◌, ◌>>◌}
use holographic_plus.Timestamps.{FromIso, parse_timestamp}
use holographic_plus.FactStore.{Fact, Conflict, Store, is_current, in_slot, is_indexed, has_fact_id}
use holographic_plus.StateSlots.Keys.{required, normalize_subject_key, normalize_predicate_key}
use holographic_plus.StateSlots.Tables.{
  insert_conflict, update_facts, insert_member, insert_members,
}

pub record ConflictRecord : Type 0 where
  pub conflict_id : String
  pub scope : String
  pub subject_key : String
  pub predicate_key : String
  pub member_fact_ids : List ℕ
  pub detected_at : String

-- What the code takes from the standard library and the clock in one call.
pub record Ambient : Type 0 where
  pub from_iso : FromIso
  pub casefold : String → String
  pub json_object : String → Option String
  pub utc_now : String
  pub uuid : String

unfoldable pub contains_id : List ℕ → ℕ → Bool
contains_id ids i = any (λ j. j == i) ids

-- `len(set(ids)) == len(ids)`
unfoldable pub all_distinct : List ℕ → Bool
unfolding contains_id
all_distinct [] = true
all_distinct (i ∷ ids) = not (contains_id ids i) && all_distinct ids

unfoldable pub same_set : List ℕ → List ℕ → Bool
unfolding contains_id
same_set xs ys = all (contains_id ys) xs && all (contains_id xs) ys

abbrev pub json_checked : Option String → Result String
json_checked none = raise value_error
json_checked (some s) = ok s

-- `value or now`, and the check that it is an instant.
unfoldable pub stamp : Ambient → Option String → Result String
stamp env given =
    let text = if is_empty (value_or given "") then env.utc_now else value_or given "" in
    elim (parse_timestamp env.from_iso (some text)) [ ok _ ↦ ok text | raise e ↦ raise e ]

abbrev pub new_conflict : String → String → String → String → String → String → Conflict
new_conflict conflict_id scope subject predicate detected_at detail = record {
  conflict_id = conflict_id;
  scope = scope;
  subject_key = subject;
  predicate_key = predicate;
  detected_at = detected_at;
  resolved_at = none;
  resolution_fact_id = none;
  resolved_by = none;
  resolution_reason = none;
  detail_json = detail;
}

abbrev pub join_conflict : String → Fact → Fact
join_conflict conflict_id f = record f { conflict_group = some conflict_id }

-- `WHERE fact_id IN (…)`
abbrev pub is_among : List ℕ → Fact → Bool
is_among ids f = contains_id ids f.fact_id

-- The three inserts and updates, after the checks.
unfoldable pub write_conflict :
    String
    → String
    → String
    → String
    → List ℕ
    → String
    → String
    → (Fact → Fact)
    → Exec Store ConflictRecord
write_conflict uuid scope subject predicate ids detected_at detail join = do
  insert_conflict (new_conflict uuid scope subject predicate detected_at detail)
  update_facts (is_among ids) join
  insert_members uuid ids
  pure (record {
    conflict_id = uuid;
    scope = scope;
    subject_key = subject;
    predicate_key = predicate;
    member_fact_ids = ids;
    detected_at = detected_at;
  })

module _ (env : Ambient) where
  unfoldable pub open_state_conflict :
      String → String → List ℕ → String → Option String → String → Exec Store ConflictRecord
  unfolding all_distinct same_set stamp is_indexed
  open_state_conflict subject_key predicate_key ids scope detected_at detail = do
    subject ← lift (required subject_key)
    predicate ← lift (required predicate_key)
    in_scope ← lift (required scope)
    check (not (length ids == 0)) value_error
    check (all_distinct ids) value_error
    detail_json ← lift (json_checked (env.json_object detail))
    detected ← lift (stamp env detected_at)
    found ← gets (λ (s : Store).
        map (λ (f : Fact). f.fact_id)
          (select (λ f. is_among ids f && is_indexed in_scope subject predicate f) s.facts))
    check (same_set found ids) invariant_error
    write_conflict env.uuid in_scope subject predicate ids detected detail_json
        (join_conflict env.uuid)

  -- `scope = ?`, current, in no conflict, and not typed state
  unfoldable pub is_untyped : String → Fact → Bool
  unfolding is_current
  is_untyped scope f =
      str_eq f.scope scope
      && is_current f
      && is_none f.conflict_group
      && not (text_is f.memory_kind "state")

  abbrev pub join_untyped : String → String → String → Fact → Fact
  join_untyped conflict_id subject predicate f = record f {
    conflict_group = some conflict_id;
    subject_key = coalesce f.subject_key (some subject);
    predicate_key = coalesce f.predicate_key (some predicate);
  }

  unfoldable pub open_untyped_conflict :
      List ℕ → String → String → String → Option String → String → Exec Store ConflictRecord
  unfolding all_distinct same_set stamp is_untyped
  open_untyped_conflict ids scope subject_key predicate_key detected_at detail = do
    given_subject ← lift (required subject_key)
    subject ← lift (normalize_subject_key env.casefold given_subject)
    given_predicate ← lift (required predicate_key)
    predicate ← lift (normalize_predicate_key env.casefold given_predicate)
    in_scope ← lift (required scope)
    check (not (length ids == 0)) value_error
    check (all_distinct ids) value_error
    detail_json ← lift (json_checked (env.json_object detail))
    detected ← lift (stamp env detected_at)
    found ← gets (λ (s : Store).
        map (λ (f : Fact). f.fact_id)
          (select (λ f. is_among ids f && is_untyped in_scope f) s.facts))
    check (same_set found ids) invariant_error
    write_conflict env.uuid in_scope subject predicate ids detected detail_json
        (join_untyped env.uuid subject predicate)

-- `SELECT … FROM fact_conflicts WHERE conflict_id = ? AND resolved_at IS NULL`
unfoldable pub open_conflict : String → Store → Option Conflict
open_conflict conflict_id store =
    find (λ (c : Conflict). str_eq c.conflict_id conflict_id && is_none c.resolved_at)
      store.conflicts

abbrev pub or_raise {ℓ} : {A : Type ℓ} → Option A → Result A
or_raise none = raise value_error
or_raise (some a) = ok a

abbrev pub fits_conflict : Conflict → String → Option Fact → Bool
fits_conflict c conflict_id none = false
fits_conflict c conflict_id (some f) =
    in_slot c.scope c.subject_key c.predicate_key f && text_is f.conflict_group conflict_id

abbrev pub fits_untyped : Conflict → String → Option Fact → Bool
fits_untyped c conflict_id none = false
fits_untyped c conflict_id (some f) =
    str_eq f.scope c.scope && str_eq (value_or f.conflict_group "None") conflict_id

abbrev pub holds_for : (Fact → Bool) → Option Fact → Bool
holds_for p none = false
holds_for p (some f) = p f

unfoldable pub add_conflict_member : String → ℕ → Exec Store (Unit {0})
unfolding open_conflict is_current in_slot
add_conflict_member conflict_id fact_id = do
  found ← gets (open_conflict conflict_id)
  c ← lift (or_raise found)
  fact ← gets (λ (s : Store). find (has_fact_id fact_id) s.facts)
  check (fits_conflict c conflict_id fact) invariant_error
  check (holds_for is_current fact) invariant_error
  insert_member conflict_id fact_id

unfoldable pub add_untyped_conflict_member : String → ℕ → Exec Store (Unit {0})
unfolding open_conflict is_current
add_untyped_conflict_member conflict_id fact_id = do
  found ← gets (open_conflict conflict_id)
  c ← lift (or_raise found)
  fact ← gets (λ (s : Store). find (has_fact_id fact_id) s.facts)
  check (fits_untyped c conflict_id fact) invariant_error
  check (holds_for (λ f. not (text_is f.memory_kind "state")) fact) invariant_error
  check (holds_for is_current fact) invariant_error
  insert_member conflict_id fact_id
