-- ===== src/StateSlots/Canonical.antt =====
-- Normalized keys are in normal form.
use Prim.Native.Char.{code}
use holographic_plus.Base.{
  ℕ, ◌≡◌, refl, ap, String, Bool, true, false, not, is_space, strip, has_no_space, strip_same,
  if◌then◌else◌, arith, Bool-cases, inl, inr, ok,
}
use holographic_plus.StateSlots.Keys.{
  is_key_start, is_subject_char, is_predicate_char, all_chars, matches_key, join_runs,
  is_space_or_dash, normalize_subject_key, normalize_predicate_key,
}

subject_char_plain : (c : ℕ) → is_subject_char c ≡ true → is_space c ≡ false
unfolding is_subject_char is_space
subject_char_plain c h = ground arith

all_plain :
    (p : ℕ → Bool) (s : String)
    → ((c : ℕ) → p c ≡ true → is_space c ≡ false)
    → all_chars p s ≡ true
    → has_no_space s ≡ true
unfolding all_chars has_no_space
all_plain p String.[] h a = refl
all_plain p (String.◌∷◌ c s) h a = ground (arith, h (code c), all_plain p s h (ground arith))

joined_same :
    (q : ℕ → Bool) (s : String) → all_chars (λ c. not (q c)) s ≡ true → join_runs q false s ≡ s
unfolding all_chars join_runs
joined_same q String.[] h = refl
joined_same q (String.◌∷◌ c s) h = elim (Bool-cases (q (code c))) [
  | inl run ↦ cc (rw run at h)
  | inr plain ↦ rw plain (ap (String.◌∷◌ c) (joined_same q s (ground arith)))
]

predicate_char_plain : (c : ℕ) → is_predicate_char c ≡ true → is_space c ≡ false
unfolding is_predicate_char is_space
predicate_char_plain c h = ground arith

key_chars :
    (p : ℕ → Bool) (limit : ℕ) (s : String)
    → ((c : ℕ) → is_key_start c ≡ true → p c ≡ true)
    → matches_key p limit s ≡ true
    → all_chars p s ≡ true
unfolding matches_key all_chars
key_chars p limit String.[] h m = refl
key_chars p limit (String.◌∷◌ c s) h m = ground (arith, h (code c))

all_weaker :
    (p q : ℕ → Bool) (s : String)
    → ((c : ℕ) → p c ≡ true → q c ≡ true)
    → all_chars p s ≡ true
    → all_chars q s ≡ true
unfolding all_chars
all_weaker p q String.[] h a = refl
all_weaker p q (String.◌∷◌ c s) h a = ground (arith, h (code c), all_weaker p q s h (ground arith))

subject_key-matches :
    (casefold : String → String) (value : String) {key : String}
    → normalize_subject_key casefold value ≡ ok key
    → matches_key is_subject_char 127 key ≡ true
unfolding normalize_subject_key
subject_key-matches casefold value h = ground arith

start_is_subject : (c : ℕ) → is_key_start c ≡ true → is_subject_char c ≡ true
unfolding is_subject_char
start_is_subject c h = ground arith

-- A normalized subject is a normal form: normalizing it again returns it, where `casefold` leaves a
-- text of key characters as it is.
normalize_subject_key-again :
    (casefold : String → String) (value : String) {key : String}
    → ((s : String) → all_chars is_subject_char s ≡ true → casefold s ≡ s)
    → normalize_subject_key casefold value ≡ ok key
    → normalize_subject_key casefold key ≡ ok key
unfolding normalize_subject_key
normalize_subject_key-again casefold value {key} folded h =
    let matches = subject_key-matches casefold value h in
    let chars : all_chars is_subject_char key ≡ true =
      key_chars is_subject_char 127 key start_is_subject matches in
    let plain = all_plain is_subject_char key subject_char_plain chars in
    let joined = joined_same is_space key (
      all_weaker is_subject_char (λ c. not (is_space c)) key
        (λ c a. ap not (subject_char_plain c a)) chars) in
    rw (strip_same key plain) (rw (folded key chars) (rw joined (rw matches refl)))

one_underscore :
    (q : ℕ → Bool) (inside : Bool) (rest : String)
    → q b'_' ≡ false
    → all_chars (λ c. not (q c)) rest ≡ true
    → all_chars (λ c. not (q c)) (if inside then rest else String.◌∷◌ "_" rest) ≡ true
unfolding all_chars
one_underscore q true rest h a = a
one_underscore q false rest h a = rw h a

underscore_plain : is_space_or_dash b'_' ≡ false
unfolding is_space
underscore_plain = refl

-- What `re.sub` leaves has no character of the class, where the underscore is not of it.
joined_none :
    (q : ℕ → Bool) (inside : Bool) (s : String)
    → q b'_' ≡ false
    → all_chars (λ c. not (q c)) (join_runs q inside s) ≡ true
unfolding all_chars join_runs
joined_none q inside String.[] h = refl
joined_none q inside (String.◌∷◌ c s) h =
    let rest = joined_none q (q (code c)) s h in
    elim (Bool-cases (q (code c))) [
      | inl run ↦
          let behind = rw run at rest in
          rw run (one_underscore q inside (join_runs q true s) h behind)
      | inr plain ↦ let behind = rw plain at rest in rw plain (rw plain behind)
    ]

predicate_key-form :
    (casefold : String → String) (value : String) {key : String}
    → normalize_predicate_key casefold value ≡ ok key
    → (matches_key is_predicate_char 63 key ≡ true)
      × (key ≡ join_runs is_space_or_dash false (casefold (strip value)))
unfolding normalize_predicate_key
predicate_key-form casefold value h = ground arith

start_is_predicate : (c : ℕ) → is_key_start c ≡ true → is_predicate_char c ≡ true
unfolding is_predicate_char
start_is_predicate c h = ground arith

-- A normalized predicate is a normal form: normalizing it again returns it, where `casefold` leaves
-- a text of key characters as it is.
pub normalize_predicate_key-again :
    (casefold : String → String) (value : String) {key : String}
    → ((s : String) → all_chars is_predicate_char s ≡ true → casefold s ≡ s)
    → normalize_predicate_key casefold value ≡ ok key
    → normalize_predicate_key casefold key ≡ ok key
unfolding normalize_predicate_key
normalize_predicate_key-again casefold value {key} folded h =
    let (matches, form) = predicate_key-form casefold value h in
    let chars : all_chars is_predicate_char key ≡ true =
      key_chars is_predicate_char 63 key start_is_predicate matches in
    let plain = all_plain is_predicate_char key predicate_char_plain chars in
    let joined =
      joined_same is_space_or_dash key
        (rw form (joined_none is_space_or_dash false (casefold (strip value)) underscore_plain)) in
    rw (strip_same key plain) (rw (folded key chars) (rw joined (rw matches refl)))
