-- ===== src/Temporal/Symmetry.antt =====
-- Whether two texts are a value update of one another does not depend on their order.
use holographic_plus.Base.{
  ◌≡◌, refl, sym, ◌∙◌, String, Bool, true, false, ◌&&◌, ◌||◌, List, [], ◌∷◌, str_eq, str_eq_sym,
  any, all, select, arith,
}
use holographic_plus.Temporal.Words.{
  norm_token_sequence, is_in, common, same_words, same_sequence, opposes, differ, state_word_groups,
  has_subjectish_overlap, is_nonempty, negation_words, value_tokens, state_words, subjectish_tokens,
}
use holographic_plus.Temporal.Updates.{flips, frame, is_update, is_value_update}

same_sequence_sym : (ts us : List String) → same_sequence ts us ≡ same_sequence us ts
unfolding same_sequence
same_sequence_sym [] [] = refl
same_sequence_sym [] (u ∷ us) = refl
same_sequence_sym (t ∷ ts) [] = refl
same_sequence_sym (t ∷ ts) (u ∷ us) = ground (arith, str_eq_sym t u, same_sequence_sym ts us)

and_sym : (a b : Bool) → (a && b) ≡ (b && a)
and_sym a b = ground arith

same_words_sym : (ts us : List String) → same_words ts us ≡ same_words us ts
same_words_sym ts us = and_sym (all (is_in us) ts) (all (is_in ts) us)

any_ext {ℓ} :
    {A : Type ℓ} (p q : A → Bool) (xs : List A) → ((x : A) → p x ≡ q x) → any p xs ≡ any q xs
any_ext p q [] h = refl
any_ext p q (x ∷ xs) h = ground (arith, h x, any_ext p q xs h)

any_or {ℓ} :
    {A : Type ℓ} (p q : A → Bool) (xs : List A) → any (λ x. p x || q x) xs ≡ (any p xs || any q xs)
any_or p q [] = refl
any_or p q (x ∷ xs) = ground (arith, any_or p q xs)

any_never {ℓ} : {A : Type ℓ} (xs : List A) → any (λ x. false) xs ≡ false
any_never [] = refl
any_never (x ∷ xs) = any_never xs

any_in_sym : (ts us : List String) → any (is_in us) ts ≡ any (is_in ts) us
any_in_sym [] us = sym (any_never us)
any_in_sym (t ∷ ts) us =
    let first : is_in us t ≡ any (λ u. str_eq t u) us = any_ext _ _ us (λ u. str_eq_sym u t) in
    rw (first, any_in_sym ts us) (sym (any_or (λ u. str_eq t u) (is_in ts) us))

nonempty-select : (p : String → Bool) (ts : List String) → is_nonempty (select p ts) ≡ any p ts
unfolding select
nonempty-select p [] = refl
nonempty-select p (t ∷ ts) = ground (arith, nonempty-select p ts)

common_sym : (ts us : List String) → is_nonempty (common ts us) ≡ is_nonempty (common us ts)
common_sym ts us =
    nonempty-select (is_in us) ts ∙ any_in_sym ts us ∙ sym (nonempty-select (is_in ts) us)

overlap_sym : (ts us : List String) → has_subjectish_overlap ts us ≡ has_subjectish_overlap us ts
unfolding has_subjectish_overlap
overlap_sym ts us = common_sym (subjectish_tokens ts) (subjectish_tokens us)

opposes_sym : (ts us group : List String) → opposes ts us group ≡ opposes us ts group
unfolding opposes
opposes_sym ts us group = ground (arith, same_words_sym (common ts group) (common us group))

differ_sym : (a b : Bool) → differ a b ≡ differ b a
differ_sym true true = refl
differ_sym true false = refl
differ_sym false true = refl
differ_sym false false = refl

flips_sym : (ts us : List String) → flips ts us ≡ flips us ts
unfolding flips
flips_sym ts us = ground (
  arith,
  overlap_sym ts us,
  any_ext (opposes (state_words ts) (state_words us)) (opposes (state_words us) (state_words ts))
      state_word_groups (opposes_sym (state_words ts) (state_words us)),
  differ_sym (is_nonempty (negation_words ts)) (is_nonempty (negation_words us)),
)

update_sym : (ts us : List String) → is_update ts us ≡ is_update us ts
unfolding is_update
update_sym ts us = ground (
  arith,
  same_sequence_sym (value_tokens ts) (value_tokens us),
  flips_sym ts us,
  same_words_sym (frame ts) (frame us),
)

-- Which of two texts came first does not matter to whether one updates the value of the other.
pub is_value_update_sym :
    (lower : String → String) (content other : String)
    → is_value_update lower content other ≡ is_value_update lower other content
unfolding is_value_update
is_value_update_sym lower content other =
    update_sym (norm_token_sequence lower content) (norm_token_sequence lower other)
