-- ===== src/Policy/Scopes.antt =====
-- The vocabularies: `is_run_scope`, `run_scope_for_session`, `scope_authorized`, `validate_scope`,
-- `validate_sensitivity`, `validate_relation`, `validate_correction_status`. SHA-256 in hexadecimal
-- is a parameter.
use Prim.Native.Char.{code}
use Prim.Native.String
use holographic_plus.Base.{
  ℕ, String, Bool, true, false, ◌&&◌, ◌||◌, Option, none, some, List, [], ◌∷◌, leb, ◌==◌, str_eq,
  any, strip, take_chars, if◌then◌else◌, Result, ok, raise, value_error,
}
use holographic_plus.StateSlots.Keys.{all_chars}

abbrev pub is_one_of : List String → String → Bool
is_one_of words value = any (λ w. str_eq w value) words

abbrev pub base_scopes : List String
base_scopes = "private" ∷ "work" ∷ "public" ∷ "sensitive" ∷ "secret" ∷ []

abbrev pub sensitivities : List String
sensitivities = "normal" ∷ "sensitive" ∷ "secret" ∷ []

abbrev pub relations : List String
relations = "supports" ∷ "contradicts" ∷ "verifies" ∷ "corrects" ∷ "derived_from" ∷ []

abbrev pub correction_statuses : List String
correction_statuses = "unreviewed" ∷ "human_corrected" ∷ "human_confirmed" ∷ []

-- `[A-Za-z0-9]`
unfoldable pub is_alnum : ℕ → Bool
is_alnum c = (leb b'A' c && leb c b'Z') || (leb b'a' c && leb c b'z') || (leb b'0' c && leb c b'9')

-- `[A-Za-z0-9._-]`
unfoldable pub is_token_char : ℕ → Bool
unfolding is_alnum
is_token_char c = is_alnum c || c == b'.' || c == b'_' || c == b'-'

-- `fullmatch` of `[A-Za-z0-9][A-Za-z0-9._-]{0,127}`
unfoldable pub is_token : String → Bool
unfolding is_alnum is_token_char
is_token String.[] = false
is_token (String.◌∷◌ c s) =
    is_alnum (code c) && all_chars is_token_char s && leb (String.count s) 127

-- A token behind a prefix.
unfoldable pub is_token_after : List ℕ → String → Bool
unfolding is_token
is_token_after [] s = is_token s
is_token_after (p ∷ ps) String.[] = false
is_token_after (p ∷ ps) (String.◌∷◌ c s) = code c == p && is_token_after ps s

unfoldable pub is_run_scope : String → Bool
unfolding is_token_after
is_run_scope value = is_token_after (b'r' ∷ b'u' ∷ b'n' ∷ b':' ∷ []) value

unfoldable pub is_project_scope : String → Bool
unfolding is_token_after
is_project_scope value =
    is_token_after (b'p' ∷ b'r' ∷ b'o' ∷ b'j' ∷ b'e' ∷ b'c' ∷ b't' ∷ b':' ∷ []) value

-- `f"run:{s}"`
abbrev pub behind_run : String → String
behind_run s = String.◌∷◌ "r" (String.◌∷◌ "u" (String.◌∷◌ "n" (String.◌∷◌ ":" s)))

unfoldable pub run_scope_for_session : (String → String) → String → String
unfolding is_run_scope
run_scope_for_session sha256 session_id =
    let token = strip session_id in
    if is_run_scope (behind_run token)
    then behind_run token
    else behind_run (take_chars 24 (sha256 token))

unfoldable pub scope_authorized : String → List String → Bool
unfolding is_run_scope
scope_authorized scope access_scopes =
    is_one_of access_scopes scope || (is_run_scope scope && is_one_of access_scopes "private")

unfoldable pub is_scope : String → Bool
unfolding is_run_scope is_project_scope
is_scope value = is_one_of base_scopes value || is_project_scope value || is_run_scope value

unfoldable pub validate_scope : String → Result String
unfolding is_scope
validate_scope value = if is_scope value then ok value else raise value_error

unfoldable pub validate_sensitivity : String → Result String
validate_sensitivity value = if is_one_of sensitivities value then ok value else raise value_error

unfoldable pub validate_relation : String → Result String
validate_relation value = if is_one_of relations value then ok value else raise value_error

unfoldable pub is_correction_status : Option String → Bool
is_correction_status none = true
is_correction_status (some value) = is_one_of correction_statuses value

unfoldable pub validate_correction_status : Option String → Result (Option String)
unfolding is_correction_status
validate_correction_status value =
    if is_correction_status value then ok value else raise value_error
