-- ===== src/Timestamps.antt =====
-- Instants in text: `_parse_timestamp` and `_intervals_overlap` of enfold/state_slots.py,
-- `_parse_clock` of enfold/temporal.py. What `datetime.fromisoformat` reads is a parameter: the
-- instant in microseconds, UTC, where a text without an offset is read as UTC.
use Prim.Native.Char.{code}
use holographic_plus.Base.{
  ℕ, String, Bool, true, false, Option, none, some, leb, ◌==◌, is_empty, strip, if◌then◌else◌,
  Result, ok, raise, value_error, ◌>>=◌,
}

-- `if s.endswith("Z"): s = s[:-1] + "+00:00"`
unfoldable pub read_zulu : String → String
read_zulu String.[] = String.[]
read_zulu (String.◌∷◌ c String.[]) = if code c == b'Z' then "+00:00" else String.◌∷◌ c String.[]
read_zulu (String.◌∷◌ c (String.◌∷◌ d s)) = String.◌∷◌ c (read_zulu (String.◌∷◌ d s))

-- `s.replace(" ", "T", 1)`
unfoldable pub space_to_t : String → String
space_to_t String.[] = String.[]
space_to_t (String.◌∷◌ c s) =
    let rest = space_to_t s in if code c == b' ' then String.◌∷◌ "T" s else String.◌∷◌ c rest

abbrev pub FromIso : Type 0
FromIso = String → Option ℕ

abbrev required_instant : Option ℕ → Result (Option ℕ)
required_instant none = raise value_error
required_instant (some t) = ok (some t)

abbrev pub first_instant : Option ℕ → Option ℕ → Option ℕ
first_instant none b = b
first_instant (some t) b = some t

module _ (from_iso : FromIso) where
  unfoldable pub parse_timestamp : Option String → Result (Option ℕ)
  unfolding read_zulu
  parse_timestamp none = ok none
  parse_timestamp (some value) =
      let candidate = strip value in
      if is_empty candidate then ok none else required_instant (from_iso (read_zulu candidate))

  unfoldable pub parse_clock : Option String → Option ℕ
  unfolding read_zulu space_to_t
  parse_clock none = none
  parse_clock (some value) =
      let candidate = strip value in
      if is_empty candidate
      then none
      else first_instant (from_iso (read_zulu candidate))
          (from_iso (space_to_t (read_zulu candidate)))

  -- One interval `[start, end)` ends at or before the start of the other.
  abbrev pub ends_before : Option ℕ → Option ℕ → Bool
  ends_before (some end) (some start) = leb end start
  ends_before _ _ = false

  unfoldable pub intervals_overlap :
      Option String → Option String → Option String → Option String → Result Bool
  intervals_overlap left_from left_to right_from right_to = do
    left_start ← parse_timestamp left_from
    left_end ← parse_timestamp left_to
    right_start ← parse_timestamp right_from
    right_end ← parse_timestamp right_to
    ok (
        if ends_before left_end right_start
        then false
        else if ends_before right_end left_start
        then false
        else true)
