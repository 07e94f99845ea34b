-- ===== src/Base/Text.antt =====
-- `str.strip` and the test for an empty text.
use Prim.Native.Nat.{ℕ, zero, suc, ◌+◌}
use Prim.Native.Char.{code}
use Prim.Native.String
use Prim.Native.String.{String}
use mathlib.Core.List.{List, [], ◌∷◌}
use mathlib.Core.Bool.{Bool, true, false, ◌&&◌, ◌||◌}
use mathlib.Core.Path.{◌≡◌, refl}
use mathlib.Core.Logic.{inl, inr}
use mathlib.Core.Bool.{not}
use native.Mathlib.Omega.{arith}
use holographic_plus.Base.Tests.{leb, ◌==◌, if◌then◌else◌, Bool-cases}

-- The code points that `str.isspace` accepts.
unfoldable pub is_space : ℕ → Bool
is_space c =
    (leb 9 c && leb c 13)
    || (leb 28 c && leb c 32)
    || c == 133
    || c == 160
    || c == 5760
    || (leb 8192 c && leb c 8202)
    || c == 8232
    || c == 8233
    || c == 8239
    || c == 8287
    || c == 12288

abbrev pub is_empty : String → Bool
is_empty String.[] = true
is_empty (String.◌∷◌ c s) = false

pub lstrip : String → String
unfolding is_space
lstrip String.[] = String.[]
lstrip (String.◌∷◌ c s) = let rest = lstrip s in if is_space (code c) then rest else String.◌∷◌ c s

-- A space is dropped where nothing but spaces stands behind it.
pub rstrip : String → String
unfolding is_space
rstrip String.[] = String.[]
rstrip (String.◌∷◌ c s) =
    let rest = rstrip s in
    if is_empty rest && is_space (code c) then String.[] else String.◌∷◌ c rest

unfoldable pub strip : String → String
unfolding lstrip rstrip
strip s = rstrip (lstrip s)

abbrev pub concat : String → String → String
concat s t = String.◌++◌ s t

-- `s[:n]`, counted in characters.
unfoldable pub take_chars : ℕ → String → String
take_chars zero s = String.[]
take_chars (suc n) String.[] = String.[]
take_chars (suc n) (String.◌∷◌ c s) = String.◌∷◌ c (take_chars n s)

-- `s.encode("utf-8")[-limit:].decode("utf-8", errors="ignore")`: the longest tail of whole
-- characters whose encoding fits; `String.len` counts the bytes.
unfoldable pub utf8_tail : ℕ → String → String
utf8_tail limit String.[] = String.[]
utf8_tail limit (String.◌∷◌ c s) =
    let rest = utf8_tail limit s in
    if leb (String.len (String.◌∷◌ c s)) limit then String.◌∷◌ c s else rest

-- The code points of a text.
unfoldable pub codes : String → List ℕ
codes String.[] = []
codes (String.◌∷◌ c s) = code c ∷ codes s

-- `str.lower` on the letters A to Z.
unfoldable pub lower_code : ℕ → ℕ
lower_code c = if leb 65 c && leb c 90 then c + 32 else c

unfoldable pub begins_with : List ℕ → List ℕ → Bool
begins_with s [] = true
begins_with [] (p ∷ ps) = false
begins_with (c ∷ s) (p ∷ ps) = c == p && begins_with s ps

-- `pattern in s`.
unfoldable pub contains : List ℕ → List ℕ → Bool
unfolding begins_with
contains [] pattern = begins_with [] pattern
contains (c ∷ s) pattern = begins_with (c ∷ s) pattern || contains s pattern

unfoldable pub has_no_space : String → Bool
unfolding is_space
has_no_space String.[] = true
has_no_space (String.◌∷◌ c s) = not (is_space (code c)) && has_no_space s

lstrip_same : (s : String) → has_no_space s ≡ true → lstrip s ≡ s
unfolding has_no_space lstrip
lstrip_same String.[] h = refl
lstrip_same (String.◌∷◌ c s) h = elim (Bool-cases (is_space (code c))) [
  | inl space ↦ cc (rw space at h)
  | inr plain ↦ rw plain refl
]

rstrip_same : (s : String) → has_no_space s ≡ true → rstrip s ≡ s
unfolding has_no_space rstrip
rstrip_same String.[] h = refl
rstrip_same (String.◌∷◌ c s) h = elim (Bool-cases (is_space (code c))) [
  | inl space ↦ cc (rw space at h)
  | inr plain ↦
      let rest : has_no_space s ≡ true = rw plain at h in
      rw (rstrip_same s rest) (rw plain (ground arith))
]

pub strip_same : (s : String) → has_no_space s ≡ true → strip s ≡ s
unfolding strip
strip_same s h = rw (lstrip_same s h) (rstrip_same s h)
