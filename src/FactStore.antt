-- ===== src/FactStore.antt =====
-- The tables of the store that facts, conflicts and their history stand in
-- (enfold/state_slots.py: the CREATE TABLE statements and _TYPED_COLUMNS; enfold/temporal.py:
-- ensure_temporal_schema). A table is the list of its rows in the order of its key. Authorities
-- are numbers of 2^-1074, of which every double in [0, 1] is a whole number.
use holographic_plus.Base.{
  ℕ, ◌^◌, String, Bool, true, ◌&&◌, Option, none, some, List, [], leb, ◌==◌, is_none, text_is,
  str_eq, all, count,
}

pub record Fact : Type 0 where
  pub fact_id : ℕ
  pub content : String
  pub scope : String
  pub sensitivity : Option String
  pub memory_kind : Option String
  pub subject_key : Option String
  pub predicate_key : Option String
  pub object_value : Option String
  pub source_authority : Option ℕ
  pub created_at : Option String
  pub valid_from : Option String
  pub valid_to : Option String
  pub invalid_at : Option String
  pub expired_at : Option String
  pub superseded_by : Option ℕ
  pub conflict_group : Option String
  pub correction_status : Option String
  pub confidence : Option ℕ

-- A row of `fact_conflicts`.
pub record Conflict : Type 0 where
  pub conflict_id : String
  pub scope : String
  pub subject_key : String
  pub predicate_key : String
  pub detected_at : String
  pub resolved_at : Option String
  pub resolution_fact_id : Option ℕ
  pub resolved_by : Option String
  pub resolution_reason : Option String
  pub detail_json : String

-- A row of `fact_conflict_members`.
pub record Member : Type 0 where
  pub conflict_id : String
  pub fact_id : ℕ

-- A row of `fact_conflict_resolutions`.
pub record Resolution : Type 0 where
  pub conflict_id : String
  pub resolution_fact_id : ℕ
  pub resolver_client_id : String
  pub resolver_session_id : String
  pub resolver_agent_id : String
  pub reason : String
  pub resolved_at : String

-- A row of `memory_review_queue`; also what `record_needs_review` returns.
pub record ReviewRecord : Type 0 where
  pub review_id : String
  pub scope : String
  pub reason : String
  pub content : Option String
  pub subject_key : Option String
  pub predicate_key : Option String
  pub recorded_at : String
  pub detail_json : String
  pub resolved_at : Option String

-- A row of `memory_sessions` (enfold/provenance.py: the CREATE TABLE statements), less `ended_at`.
pub record Session : Type 0 where
  pub client_id : String
  pub session_id : String
  pub agent_id : String
  pub parent_agent_id : Option String
  pub project_root : Option String
  pub repository : Option String
  pub branch : Option String
  pub commit_sha : Option String
  pub capabilities : List String
  pub access_scopes : List String
  pub started_at : String

pub record Store : Type 0 where
  pub facts : List Fact
  pub conflicts : List Conflict
  pub members : List Member
  pub resolutions : List Resolution
  pub reviews : List ReviewRecord
  pub sessions : List Session

abbrev pub empty : Store
empty = record {
  facts = [];
  conflicts = [];
  members = [];
  resolutions = [];
  reviews = [];
  sessions = [];
}

unfoldable pub full_authority : ℕ
full_authority = 2 ^ 1074

-- 0.5
unfoldable pub default_authority : ℕ
default_authority = 2 ^ 1073

-- `invalid_at IS NULL AND superseded_by IS NULL`
unfoldable pub is_current : Fact → Bool
is_current f = is_none f.invalid_at && is_none f.superseded_by

abbrev pub has_fact_id : ℕ → Fact → Bool
has_fact_id i f = f.fact_id == i

-- `memory_kind = 'state' AND scope = ? AND subject_key = ? AND predicate_key = ?`
unfoldable pub in_slot : String → String → String → Fact → Bool
in_slot scope subject predicate f =
    text_is f.memory_kind "state"
    && str_eq f.scope scope
    && text_is f.subject_key subject
    && text_is f.predicate_key predicate

-- The rows of the partial unique index on a slot.
unfoldable pub is_indexed : String → String → String → Fact → Bool
unfolding is_current in_slot
is_indexed scope subject predicate f =
    in_slot scope subject predicate f && is_current f && is_none f.conflict_group

-- The entry of one row in `uq_facts_current_state_slot` is the only one of its slot.
unfoldable pub slot_is_unique : List Fact → Fact → Bool
slot_is_unique facts f = elim f.subject_key [
  | none ↦ true
  | some subject ↦ elim f.predicate_key [
    | none ↦ true
    | some predicate ↦ leb (count (is_indexed f.scope subject predicate) facts) 1
  ]
]

unfoldable pub index_holds : List Fact → Bool
unfolding slot_is_unique
index_holds facts = all (slot_is_unique facts) facts
