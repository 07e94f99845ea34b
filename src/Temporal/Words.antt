-- ===== src/Temporal/Words.antt =====
-- The token helpers: `_norm_token_sequence` to `_has_negation_mismatch`. A set of tokens is a list
-- that is only asked for membership. `str.lower` is a parameter.
use Prim.Native.Char.{code}
use Prim.Native.String
use holographic_plus.Base.{
  ℕ, ◌+◌, String, Bool, true, false, not, ◌&&◌, ◌||◌, Option, none, some, List, [], ◌∷◌, ◌++◌, leb,
  ltb, is_empty, str_eq, any, all, select, if◌then◌else◌,
}

-- `[a-z0-9]`
unfoldable pub is_word_char : ℕ → Bool
is_word_char c = (leb b'a' c && leb c b'z') || (leb b'0' c && leb c b'9')

abbrev flush : String → List String → List String
flush run rest = if is_empty run then rest else run ∷ rest

-- The run of word characters at the front, and the runs behind it.
unfoldable pub runs : String → String × List String
unfolding is_word_char
runs String.[] = (String.[], [])
runs (String.◌∷◌ c s) =
    let (run, rest) = runs s in
    if is_word_char (code c) then (String.◌∷◌ c run, rest) else (String.[], flush run rest)

-- `re.findall("[a-z0-9]+", s)`
unfoldable pub find_words : String → List String
unfolding runs
find_words s = let (run, rest) = runs s in flush run rest

abbrev pub is_in : List String → String → Bool
is_in ts t = any (λ u. str_eq u t) ts

abbrev pub minus : List String → List String → List String
minus ts us = select (λ t. not (is_in us t)) ts

abbrev pub common : List String → List String → List String
common ts us = select (is_in us) ts

abbrev pub is_nonempty : List String → Bool
is_nonempty [] = false
is_nonempty (t ∷ ts) = true

-- `==` on sets.
abbrev pub same_words : List String → List String → Bool
same_words ts us = all (is_in us) ts && all (is_in ts) us

-- `==` on tuples.
unfoldable pub same_sequence : List String → List String → Bool
same_sequence [] [] = true
same_sequence (t ∷ ts) (u ∷ us) = str_eq t u && same_sequence ts us
same_sequence _ _ = false

abbrev pub stopwords : List String
stopwords =
    "a" ∷ "an" ∷ "the" ∷ "is" ∷ "are" ∷ "was" ∷ "were" ∷ "be" ∷ "been" ∷ "being" ∷ "am" ∷ "of"
    ∷ "to" ∷ "in" ∷ "on" ∷ "at" ∷ "for" ∷ "and" ∷ "or" ∷ "with" ∷ "by" ∷ "as" ∷ "it" ∷ "its"
    ∷ "this" ∷ "that" ∷ "these" ∷ "those" ∷ "from" ∷ "into" ∷ "over" ∷ "under" ∷ "has" ∷ "have"
    ∷ "had" ∷ "do" ∷ "does" ∷ "did" ∷ "will" ∷ "would" ∷ "can" ∷ "could" ∷ "should" ∷ "may"
    ∷ "might" ∷ "must" ∷ "not" ∷ "no" ∷ []

abbrev pub state_word_groups : List (List String)
state_word_groups =
    ("enabled" ∷ "disabled" ∷ [])
    ∷ ("active" ∷ "inactive" ∷ "archived" ∷ [])
    ∷ ("on" ∷ "off" ∷ [])
    ∷ ("open" ∷ "closed" ∷ [])
    ∷ ("paused" ∷ "resumed" ∷ [])
    ∷ ("up" ∷ "down" ∷ [])
    ∷ ("alive" ∷ "dead" ∷ [])
    ∷ ("started" ∷ "stopped" ∷ [])
    ∷ []

abbrev flatten : List (List String) → List String
flatten [] = []
flatten (ts ∷ rest) = ts ++ flatten rest

unfoldable pub state_words_all : List String
state_words_all = flatten state_word_groups

abbrev pub negations : List String
negations = "not" ∷ "no" ∷ "never" ∷ "without" ∷ []

-- `any(c.isdigit() for c in t)` of a token.
unfoldable pub has_digit : String → Bool
has_digit String.[] = false
has_digit (String.◌∷◌ c s) = (leb b'0' (code c) && leb (code c) b'9') || has_digit s

abbrev prepend_char : String → Option String → Option String
prepend_char c none = none
prepend_char c (some s) = some (String.◌++◌ c s)

-- `token[: -len(suffix)]` where `token.endswith(suffix)`.
unfoldable pub cut_suffix : String → String → Option String
cut_suffix suffix String.[] = if is_empty suffix then some String.[] else none
cut_suffix suffix (String.◌∷◌ c s) =
    let rest = cut_suffix suffix s in
    if str_eq (String.◌∷◌ c s) suffix
    then some String.[]
    else prepend_char (String.◌∷◌ c String.[]) rest

abbrev pub suffixes : List String
suffixes = "ation" ∷ "ing" ∷ "ed" ∷ "ic" ∷ "ion" ∷ "s" ∷ []

abbrev option_list : Option String → List String
option_list none = []
option_list (some s) = s ∷ []

-- The stems that one token adds.
unfoldable pub stems : List String → String → List String
unfolding cut_suffix
stems [] token = []
stems (suffix ∷ rest) token =
    let others = stems rest token in
    if ltb (String.count suffix + 2) (String.count token)
    then option_list (cut_suffix suffix token) ++ others
    else others

unfoldable pub expand : List String → List String
unfolding stems
expand [] = []
expand (token ∷ tokens) = (token ∷ stems suffixes token) ++ expand tokens

module _ (lower : String → String) where
  unfoldable pub norm_token_sequence : String → List String
  unfolding find_words
  norm_token_sequence s = find_words (lower s)

-- The helpers on the tokens of a text; a helper of the source on a text is one of these on its
-- tokens.
unfoldable pub value_tokens : List String → List String
unfolding has_digit
value_tokens tokens = select has_digit tokens

unfoldable pub content_tokens : List String → List String
content_tokens tokens = minus tokens stopwords

unfoldable pub state_words : List String → List String
unfolding content_tokens
state_words tokens = common (content_tokens tokens) state_words_all

unfoldable pub negation_words : List String → List String
negation_words tokens = common tokens negations

unfoldable pub subjectish_tokens : List String → List String
unfolding content_tokens expand
subjectish_tokens tokens = expand (minus (content_tokens tokens) state_words_all)

unfoldable pub has_subjectish_overlap : List String → List String → Bool
unfolding subjectish_tokens
has_subjectish_overlap a b = is_nonempty (common (subjectish_tokens a) (subjectish_tokens b))

-- The two sides use a group of state words differently.
unfoldable pub opposes : List String → List String → List String → Bool
opposes a b group =
    is_nonempty (common a group)
    && is_nonempty (common b group)
    && not (same_words (common a group) (common b group))

-- With `require_context`, as its caller has it; the same of the next. The early return on an empty
-- side is that of a loop which finds no group.
unfoldable pub has_opposing_state_words : List String → List String → Bool
unfolding has_subjectish_overlap state_words opposes
has_opposing_state_words a b =
    has_subjectish_overlap a b
    && is_nonempty (state_words a)
    && is_nonempty (state_words b)
    && any (opposes (state_words a) (state_words b)) state_word_groups

abbrev pub differ : Bool → Bool → Bool
differ true b = not b
differ false b = b

unfoldable pub has_negation_mismatch : List String → List String → Bool
unfolding has_subjectish_overlap negation_words
has_negation_mismatch a b =
    has_subjectish_overlap a b
    && differ (is_nonempty (negation_words a)) (is_nonempty (negation_words b))
