-- ===== src/Temporal/Updates.antt =====
-- `_is_value_update` and `find_value_update_target`.
use holographic_plus.Base.{
  ℕ, String, Bool, false, not, ◌&&◌, ◌||◌, Option, none, some, List, ◌==◌, is_empty, text_is, find,
  if◌then◌else◌,
}
use holographic_plus.Temporal.Words.{
  norm_token_sequence, value_tokens, content_tokens, state_words, minus, is_nonempty, same_words,
  same_sequence, has_opposing_state_words, has_negation_mismatch,
}

unfoldable pub flips : List String → List String → Bool
unfolding has_opposing_state_words has_negation_mismatch
flips a b = has_opposing_state_words a b || has_negation_mismatch a b

-- The words that are left without values and state words.
unfoldable pub frame : List String → List String
unfolding content_tokens value_tokens state_words
frame tokens = minus (minus (content_tokens tokens) (value_tokens tokens)) (state_words tokens)

-- On the tokens of the two texts.
unfoldable pub is_update : List String → List String → Bool
unfolding flips frame same_sequence
is_update a b =
    if same_sequence (value_tokens a) (value_tokens b)
    then flips a b
    else if is_nonempty (value_tokens a) && is_nonempty (value_tokens b)
    then same_words (frame a) (frame b)
    else flips a b

-- What a candidate of the search carries here.
pub record Candidate : Type 0 where
  pub content : String
  pub superseded_by : Option ℕ
  pub memory_kind : Option String
  pub conflict_group : Option String

-- The truth of an optional number and text in Python.
abbrev pub truthy_number : Option ℕ → Bool
truthy_number none = false
truthy_number (some n) = not (n == 0)

abbrev pub truthy_text : Option String → Bool
truthy_text none = false
truthy_text (some s) = not (is_empty s)

unfoldable pub is_open_candidate : Candidate → Bool
is_open_candidate c =
    not (truthy_number c.superseded_by)
    && not (text_is c.memory_kind "state" || truthy_text c.conflict_group)

module _ (lower : String → String) where
  unfoldable pub is_value_update : String → String → Bool
  unfolding is_update norm_token_sequence
  is_value_update content other =
      is_update (norm_token_sequence lower content) (norm_token_sequence lower other)

  unfoldable pub find_value_update_target : String → List Candidate → Option Candidate
  unfolding is_value_update is_open_candidate
  find_value_update_target content candidates =
      find (λ (c : Candidate). is_open_candidate c && is_value_update content c.content) candidates
