-- ===== src/Temporal/Restatement.antt =====
-- A restatement is not a value update.
use holographic_plus.Base.{
  ◌≡◌, refl, String, Bool, true, false, List, [], ◌∷◌, str_eq_refl, any, all, arith,
}
use holographic_plus.Temporal.Words.{
  norm_token_sequence, is_in, same_words, same_sequence, opposes, differ, state_word_groups,
  is_nonempty, common, negation_words, value_tokens, state_words,
}
use holographic_plus.Temporal.Updates.{flips, is_update, is_value_update}

same_sequence_refl : (ts : List String) → same_sequence ts ts ≡ true
unfolding same_sequence
same_sequence_refl [] = refl
same_sequence_refl (t ∷ ts) = ground (arith, str_eq_refl t, same_sequence_refl ts)

all_in :
    (us ts : List String)
    → ((t : String) → is_in ts t ≡ true → is_in us t ≡ true)
    → all (is_in us) ts ≡ true
all_in us [] h = refl
all_in us (t ∷ ts) h =
    let first = h t (rw (str_eq_refl t) refl) in
    let rest = all_in us ts (λ u inside. h u (ground (arith, inside))) in
    ground (arith, first, rest)

same_words_refl : (ts : List String) → same_words ts ts ≡ true
same_words_refl ts = ground (arith, all_in ts ts (λ t h. h))

pub any-false {ℓ} :
    {A : Type ℓ} (p : A → Bool) (xs : List A) → ((x : A) → p x ≡ false) → any p xs ≡ false
any-false p [] h = refl
any-false p (x ∷ xs) h = ground (arith, h x, any-false p xs h)

opposes_self : (ts group : List String) → opposes ts ts group ≡ false
unfolding opposes
opposes_self ts group = ground (arith, same_words_refl (common ts group))

differ_self : (b : Bool) → differ b b ≡ false
differ_self true = refl
differ_self false = refl

flips_self : (ts : List String) → flips ts ts ≡ false
unfolding flips
flips_self ts = ground (
  arith,
  any-false (opposes (state_words ts) (state_words ts)) state_word_groups
      (opposes_self (state_words ts)),
  differ_self (is_nonempty (negation_words ts)),
)

update_self : (ts : List String) → is_update ts ts ≡ false
unfolding is_update
update_self ts = rw (same_sequence_refl (value_tokens ts)) (flips_self ts)

-- Two texts with the same words in the same order, whatever their case, punctuation and spacing,
-- are never taken for an update of one another.
pub restatement_is_no_update :
    (lower : String → String) (content other : String)
    → norm_token_sequence lower content ≡ norm_token_sequence lower other
    → is_value_update lower content other ≡ false
unfolding is_value_update
restatement_is_no_update lower content other same = rw same (update_self _)
