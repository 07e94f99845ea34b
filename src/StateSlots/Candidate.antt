-- ===== src/StateSlots/Candidate.antt =====
-- `StateCandidate`, `CurrentStateFact`, `SlotDecision`, and the checks of `__post_init__`.
use holographic_plus.Base.{
  ℕ, String, Bool, false, not, Option, some, List, leb, Result, ok, value_error, require, ◌>>=◌,
  ◌>>◌,
}
use holographic_plus.Timestamps.{FromIso, parse_timestamp}
use holographic_plus.FactStore.{full_authority}
use holographic_plus.StateSlots.Keys.{required, normalize_subject_key, normalize_predicate_key}

pub record StateCandidate : Type 0 where
  pub content : String
  pub subject_key : String
  pub predicate_key : String
  pub object_value : Option String
  pub source_authority : ℕ
  pub valid_from : Option String
  pub memory_kind : String
  pub scope : String
  pub valid_to : Option String

pub record CurrentStateFact : Type 0 where
  pub fact_id : ℕ
  pub content : String
  pub subject_key : Option String
  pub predicate_key : Option String
  pub scope : String
  pub object_value : Option String
  pub source_authority : ℕ
  pub valid_from : Option String
  pub conflict_group : Option String
  pub valid_to : Option String

pub data Action : Type 0 where
  add dedup supersede conflict : Action

pub record SlotDecision : Type 0 where
  pub action : Action
  pub scope : String
  pub subject_key : String
  pub predicate_key : String
  pub current_fact_ids : List ℕ
  pub target_fact_id : Option ℕ
  pub reason : String

-- `end <= start` of two given instants
abbrev pub is_empty_interval : Option ℕ → Option ℕ → Bool
is_empty_interval (some start) (some end) = leb end start
is_empty_interval _ _ = false

-- `StateCandidate(…)`. An authority below 0 has no number here, and is refused by the same check.
unfoldable pub make_candidate : (String → String) → FromIso → StateCandidate → Result StateCandidate
make_candidate casefold from_iso given = do
  content ← required given.content
  scope ← required given.scope
  subject ← required given.subject_key
  predicate ← required given.predicate_key
  memory_kind ← required given.memory_kind
  subject_key ← normalize_subject_key casefold subject
  predicate_key ← normalize_predicate_key casefold predicate
  require (leb given.source_authority full_authority) value_error
  start ← parse_timestamp from_iso given.valid_from
  end ← parse_timestamp from_iso given.valid_to
  require (not (is_empty_interval start end)) value_error
  ok (record given {
    content = content;
    scope = scope;
    subject_key = subject_key;
    predicate_key = predicate_key;
    memory_kind = memory_kind;
  })
