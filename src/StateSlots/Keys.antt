-- ===== src/StateSlots/Keys.antt =====
-- `_required`, `normalize_subject_key`, `normalize_predicate_key`. Unicode case folding is a
-- parameter.
use Prim.Native.Char.{code}
use Prim.Native.String
use holographic_plus.Base.{
  ℕ, String, Bool, true, false, ◌&&◌, ◌||◌, leb, ◌==◌, is_empty, is_space, strip, if◌then◌else◌,
  Result, ok, raise, value_error,
}

unfoldable pub required : String → Result String
required value = if is_empty (strip value) then raise value_error else ok (strip value)

unfoldable pub is_key_start : ℕ → Bool
is_key_start c = (leb b'a' c && leb c b'z') || (leb b'0' c && leb c b'9')

-- `[a-z0-9._:/-]`
unfoldable pub is_subject_char : ℕ → Bool
unfolding is_key_start
is_subject_char c = is_key_start c || c == b'.' || c == b'_' || c == b':' || c == b'/' || c == b'-'

-- `[a-z0-9._-]`
unfoldable pub is_predicate_char : ℕ → Bool
unfolding is_key_start
is_predicate_char c = is_key_start c || c == b'.' || c == b'_' || c == b'-'

unfoldable pub all_chars : (ℕ → Bool) → String → Bool
all_chars p String.[] = true
all_chars p (String.◌∷◌ c s) = p (code c) && all_chars p s

-- `fullmatch` of `[a-z0-9][…]{0,limit}`
unfoldable pub matches_key : (ℕ → Bool) → ℕ → String → Bool
unfolding is_key_start all_chars
matches_key p limit String.[] = false
matches_key p limit (String.◌∷◌ c s) =
    is_key_start (code c) && all_chars p s && leb (String.count s) limit

-- `re.sub("[…]+", "_", s)`: each run of such characters becomes one underscore.
unfoldable pub join_runs : (ℕ → Bool) → Bool → String → String
join_runs p inside String.[] = String.[]
join_runs p inside (String.◌∷◌ c s) =
    let rest = join_runs p (p (code c)) s in
    if p (code c) then (if inside then rest else String.◌∷◌ "_" rest) else String.◌∷◌ c rest

abbrev pub is_space_or_dash : ℕ → Bool
is_space_or_dash c = is_space c || c == b'-'

module _ (casefold : String → String) where
  unfoldable pub normalize_subject_key : String → Result String
  unfolding is_subject_char matches_key join_runs
  normalize_subject_key value =
      let normalized = join_runs is_space false (casefold (strip value)) in
      if matches_key is_subject_char 127 normalized then ok normalized else raise value_error

  unfoldable pub normalize_predicate_key : String → Result String
  unfolding is_predicate_char matches_key join_runs
  normalize_predicate_key value =
      let normalized = join_runs is_space_or_dash false (casefold (strip value)) in
      if matches_key is_predicate_char 63 normalized then ok normalized else raise value_error
