-- ===== src/Temporal/AsOf.antt =====
-- `row_matches_as_of`.
use holographic_plus.Base.{
  ℕ, String, Bool, true, false, not, ◌&&◌, ◌||◌, Option, none, some, is_none, is_some, leb, ltb,
  if◌then◌else◌,
}
use holographic_plus.Timestamps.{FromIso, parse_clock}
use holographic_plus.FactStore.{Fact}

-- `not (start is not None and start > point)`
abbrev pub starts_by : Option ℕ → ℕ → Bool
starts_by none point = true
starts_by (some start) point = leb start point

-- `not (end is not None and end <= point)`
abbrev pub runs_past : Option ℕ → ℕ → Bool
runs_past none point = true
runs_past (some end) point = ltb point end

-- The end that a retired row without one takes from `invalid_at`, which must be readable.
abbrev pub retired_runs_past : Option ℕ → ℕ → Bool
retired_runs_past none point = false
retired_runs_past (some end) point = ltb point end

module _ (from_iso : FromIso) where
  unfoldable pub matches_valid : Fact → Bool → ℕ → Bool
  matches_valid row tx_given point =
      let start = parse_clock from_iso row.valid_from in
      let end = parse_clock from_iso row.valid_to in
      let retired = is_some row.invalid_at || is_some row.superseded_by in
      starts_by start point
      && (if is_none end && not tx_given && retired
          then retired_runs_past (parse_clock from_iso row.invalid_at) point
          else runs_past end point)
      && not (not tx_given && is_some row.expired_at)

  unfoldable pub matches_tx : Fact → ℕ → Bool
  matches_tx row point =
      let created = parse_clock from_iso row.created_at in
      let expired = parse_clock from_iso row.expired_at in
      let ended =
        if is_none expired && is_some row.superseded_by && is_none row.valid_to
        then parse_clock from_iso row.invalid_at
        else expired in
      starts_by created point && runs_past ended point

  -- A point that cannot be read matches nothing.
  abbrev pub at_point : Option ℕ → (ℕ → Bool) → Bool
  at_point none p = false
  at_point (some point) p = p point

  abbrev pub at_given : Option String → (ℕ → Bool) → Bool
  at_given none p = true
  at_given (some text) p = at_point (parse_clock from_iso (some text)) p

  unfoldable pub row_matches_as_of : Fact → Option String → Option String → Bool
  unfolding matches_valid matches_tx
  row_matches_as_of row as_of_valid as_of_tx =
      at_given as_of_valid (matches_valid row (is_some as_of_tx))
      && at_given as_of_tx (matches_tx row)
