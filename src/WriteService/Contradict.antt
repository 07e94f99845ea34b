-- ===== src/WriteService/Contradict.antt =====
-- When a new text contradicts a stored one, and the slot that labels the dispute:
-- `_canonical_shared_token` to `untyped_contents_contradict`. As in Temporal, a helper of the source
-- on a text is one on its tokens here, and a set of tokens is a list that is only asked for
-- membership.
use Prim.Native.String
use holographic_plus.Base.{
  ℕ, ◌+◌, ◌-◌, String, Bool, not, ◌&&◌, ◌||◌, Option, none, some, List, [], ◌∷◌, ltb, leb, ◌==◌,
  str_eq, all, length, value_or, concat, if◌then◌else◌, Result, ok, ◌>>=◌,
}
use holographic_plus.Temporal.Words.{
  is_in, minus, common, is_nonempty, same_words, suffixes, cut_suffix, has_digit,
  norm_token_sequence, subjectish_tokens, has_subjectish_overlap,
}
use holographic_plus.Temporal.Updates.{is_update, flips}
use holographic_plus.StateSlots.Keys.{normalize_subject_key, normalize_predicate_key}

abbrev pub state_frame_words : List String
state_frame_words =
    "is" ∷ "are" ∷ "was" ∷ "were" ∷ "uses" ∷ "use" ∷ "used" ∷ "using" ∷ "prefers" ∷ "prefer"
    ∷ "preferred" ∷ "runs" ∷ "run" ∷ "running" ∷ []

-- The stem of a token that stands in the pool, by the first suffix that gives one.
unfoldable pub stem_in : List String → List String → String → Option String
unfolding cut_suffix
stem_in pool [] token = none
stem_in pool (suffix ∷ rest) token =
    let later = stem_in pool rest token in
    if ltb (String.count suffix + 2) (String.count token)
    then (elim (cut_suffix suffix token) [
      | none ↦ later
      | some stem ↦ if is_in pool stem then some stem else later
    ])
    else later

unfoldable pub canonical_shared_token : List String → String → Option String
unfolding stem_in
canonical_shared_token subjectish token =
    if is_in subjectish token then some token else stem_in subjectish suffixes token

-- The shared tokens, each once, in the order of the first text.
unfoldable pub shared_tokens : List String → List String → List String → List String
unfolding canonical_shared_token
shared_tokens subjectish seen [] = []
shared_tokens subjectish seen (token ∷ tokens) =
    let same = shared_tokens subjectish seen tokens in
    elim (canonical_shared_token subjectish token) [
      | none ↦ same
      | some canonical ↦
          let more = shared_tokens subjectish (canonical ∷ seen) tokens in
          if is_in seen canonical then same else canonical ∷ more
    ]

-- `".".join(shared[:-1])` and `shared[-1]`, of at least two tokens.
unfoldable pub split_last : String → String → List String → String × String
split_last subject token [] = (subject, token)
split_last subject token (next ∷ rest) = split_last (concat subject (concat "." token)) next rest

abbrev pub subject_and_predicate : List String → String × String
subject_and_predicate [] = ("untyped", "claim")
subject_and_predicate (token ∷ []) = (token, "claim")
subject_and_predicate (token ∷ next ∷ rest) = split_last token next rest

-- `text[:limit]`
unfoldable pub first_chars : ℕ → String → String
first_chars limit String.[] = String.[]
first_chars limit (String.◌∷◌ c s) =
    let rest = first_chars (limit - 1) s in if limit == 0 then String.[] else String.◌∷◌ c rest

-- On the tokens of the two texts.
unfoldable pub guess_untyped_conflict_slot :
    (String → String) → List String → List String → Result (String × String)
unfolding shared_tokens split_last first_chars subjectish_tokens
guess_untyped_conflict_slot casefold left right = do
  let labels = subject_and_predicate (shared_tokens (subjectish_tokens right) [] left)
  subject ← normalize_subject_key casefold (first_chars 128 labels.0)
  predicate ← normalize_predicate_key casefold (first_chars 64 labels.1)
  ok (subject, predicate)

-- The shared prefix of two sequences, and what follows it in each.
unfoldable pub split_common : List String → List String → List String × List String × List String
split_common [] right = ([], [], right)
split_common left [] = ([], left, [])
split_common (l ∷ left) (r ∷ right) =
    let (prefix, left_tail, right_tail) = split_common left right in
    if str_eq l r then (l ∷ prefix, left_tail, right_tail) else ([], l ∷ left, r ∷ right)

abbrev meet : List String → List String → Bool
meet ts us = is_nonempty (common ts us)

-- After the overlap: two tails after a common prefix.
unfoldable pub is_substitution : List String → List String → List String → Bool
unfolding has_digit
is_substitution prefix left_tail right_tail =
    leb 2 (length prefix)
    && is_nonempty left_tail
    && is_nonempty right_tail
    && not (meet left_tail right_tail)
    && not (meet left_tail state_frame_words || meet right_tail state_frame_words)
    && (leb 3 (length prefix)
        || is_nonempty
            (minus (common prefix state_frame_words) ("is" ∷ "are" ∷ "was" ∷ "were" ∷ []))
        || (all has_digit left_tail && all has_digit right_tail))

unfoldable pub is_suffix_value_substitution : List String → List String → Bool
unfolding has_subjectish_overlap split_common is_substitution
is_suffix_value_substitution left right =
    let (prefix, left_tail, right_tail) = split_common left right in
    has_subjectish_overlap left right && is_substitution prefix left_tail right_tail

unfoldable pub has_state_frame : List String → Bool
has_state_frame tokens = meet tokens state_frame_words

unfoldable pub collapse : List String → List String → List String
unfolding stem_in
collapse pool [] = []
collapse pool (token ∷ tokens) = value_or (stem_in pool suffixes token) token ∷ collapse pool tokens

unfoldable pub untyped_claim_residue : List String → List String
unfolding subjectish_tokens collapse
untyped_claim_residue tokens =
    let pool = minus (subjectish_tokens tokens) ("never" ∷ "without" ∷ []) in collapse pool pool

unfoldable pub contradict : List String → List String → Bool
unfolding flips untyped_claim_residue has_state_frame is_update is_suffix_value_substitution
contradict left right =
    if flips left right
    then is_nonempty (untyped_claim_residue left)
      && same_words (untyped_claim_residue left) (untyped_claim_residue right)
    else has_state_frame left
      && has_state_frame right
      && (is_update left right || is_suffix_value_substitution left right)

unfoldable pub untyped_contents_contradict : (String → String) → String → String → Bool
unfolding contradict norm_token_sequence
untyped_contents_contradict lower left right =
    contradict (norm_token_sequence lower left) (norm_token_sequence lower right)
