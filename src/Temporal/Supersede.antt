-- ===== src/Temporal/Supersede.antt =====
-- `_protected_from_heuristic_supersede` and `supersede`. The columns that the migrations add are
-- present. The update meets no row of the partial index on state slots: the guard has refused it.
use holographic_plus.Base.{
  ℕ, String, Bool, false, ◌&&◌, ◌||◌, Option, none, some, is_none, is_some, coalesce, text_is, find,
  count, update_where, ◌==◌, if◌then◌else◌,
}
use holographic_plus.FactStore.{Fact, Store, has_fact_id}

-- Typed state, or a member of a conflict.
unfoldable pub is_protected : Fact → Bool
is_protected f = text_is f.memory_kind "state" || is_some f.conflict_group

abbrev pub protected_row : Option Fact → Bool
protected_row none = false
protected_row (some f) = is_protected f

unfoldable pub is_protected_from : ℕ → Store → Bool
unfolding is_protected
is_protected_from fact_id store = protected_row (find (has_fact_id fact_id) store.facts)

-- `SELECT valid_from FROM facts WHERE fact_id = ?`
abbrev valid_from_of : Option Fact → Option String
valid_from_of none = none
valid_from_of (some f) = f.valid_from

unfoldable pub successor_from : ℕ → Store → Option String
successor_from fact_id store = valid_from_of (find (has_fact_id fact_id) store.facts)

-- `WHERE fact_id = ? AND invalid_at IS NULL`
unfoldable pub is_valid : ℕ → Fact → Bool
is_valid fact_id f = has_fact_id fact_id f && is_none f.invalid_at

-- `valid_to = COALESCE(valid_to, ?)` is set only where the successor has a date; with none it would
-- change nothing.
abbrev pub invalidate : String → ℕ → Option String → Fact → Fact
invalidate now successor from f = record f {
  invalid_at = some now;
  superseded_by = some successor;
  expired_at = some now;
  valid_to = coalesce f.valid_to from;
}

-- `now` is the CURRENT_TIMESTAMP of the statement.
unfoldable pub supersede : String → ℕ → ℕ → Store → Store × Bool
unfolding is_protected_from successor_from is_valid
supersede now old_fact_id new_fact_id store =
    let from = successor_from new_fact_id store in
    if is_protected_from old_fact_id store then (store, false) else (
      record store {
        facts = update_where (is_valid old_fact_id) (invalidate now new_fact_id from) store.facts;
      },
      count (is_valid old_fact_id) store.facts == 1,
    )
