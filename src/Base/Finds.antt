-- ===== src/Base/Finds.antt =====
-- What the first row of a query says of the table, and of an update.
use Prim.Native.Nat.{◌≤◌}
use mathlib.Core.Path.{◌≡◌, refl}
use mathlib.Core.Bool.{Bool, true, false}
use mathlib.Core.Logic.{inl, inr}
use mathlib.Core.Option
use mathlib.Core.Option.{Option, none, some}
use mathlib.Core.List.{List, [], ◌∷◌, ◌++◌}
use native.Mathlib.Omega.{arith}
use holographic_plus.Base.Lists.{any, find, count, update_where, count_of_none}
use holographic_plus.Base.Tests.{if◌then◌else◌, Bool-cases}

module _ {ℓ} {A : Type ℓ} where
  pub find-sat : (p : A → Bool) (xs : List A) {x : A} → find p xs ≡ some x → p x ≡ true
  unfolding find
  find-sat p [] h = ground arith
  find-sat p (y ∷ ys) {x} h = ground (arith, find-sat p ys {x = x})

  -- `fetchone()` gives nothing exactly when no row meets the condition.
  pub find-none : (p : A → Bool) (xs : List A) → find p xs ≡ none → count p xs ≡ 0
  unfolding find count
  find-none p [] h = refl
  find-none p (x ∷ xs) h = ground (arith, find-none p xs)

  pub find-none_of_count : (p : A → Bool) (xs : List A) → count p xs ≡ 0 → find p xs ≡ none
  unfolding find count
  find-none_of_count p [] h = refl
  find-none_of_count p (x ∷ xs) h = ground (arith, find-none_of_count p xs)

  pub count_of_find : (p : A → Bool) (xs : List A) {x : A} → find p xs ≡ some x → 1 ≤ count p xs
  unfolding find count
  count_of_find p [] h = ground arith
  count_of_find p (y ∷ ys) {x} h = ground (arith, count_of_find p ys {x = x})

  -- An update that does not change what a query looks for.
  pub find-update :
      (q p : A → Bool) (f : A → A) (xs : List A)
      → ((x : A) → q (f x) ≡ q x)
      → find q (update_where p f xs) ≡ Option.map (λ x. if p x then f x else x) (find q xs)
  unfolding find update_where
  find-update q p f [] h = refl
  find-update q p f (x ∷ xs) h = ground (arith, h x, find-update q p f xs h)

  -- Where one row at most meets `q`, that row decides a condition that implies `q`.
  pub count_by_find :
      (q p : A → Bool) (xs : List A) (x : A)
      → ((y : A) → p y ≡ true → q y ≡ true)
      → count q xs ≤ 1
      → find q xs ≡ some x
      → count p xs ≡ (if p x then 1 else 0)
  unfolding find count
  count_by_find q p [] x h u e = cc
  count_by_find q p (y ∷ ys) x h u e = elim (Bool-cases (q y)) [
    | inl here ↦
        let same : y ≡ x = ground (arith, here) in
        let rest : count p ys ≡ 0 = count_of_none p q ys h (ground arith) in
        rw (← same) (omega (arith, rest))
    | inr later ↦ ground (arith, h y, count_by_find q p ys x h (ground arith) (ground arith))
  ]

  pub count-zero_at :
      (p q : A → Bool) (xs : List A) {x : A} → find q xs ≡ some x → count p xs ≡ 0 → p x ≡ false
  unfolding find count
  count-zero_at p q [] e z = cc
  count-zero_at p q (y ∷ ys) {x} e z = elim (Bool-cases (q y)) [
    | inl here ↦ let same : y ≡ x = ground (arith, here) in rw (← same) (ground arith)
    | inr later ↦ count-zero_at p q ys (ground arith) (ground arith)
  ]

  -- The row that a query finds is the one of its key.
  pub find_of_unique :
      (p q : A → Bool) (xs : List A) {x : A}
      → find p xs ≡ some x
      → q x ≡ true
      → count q xs ≤ 1
      → find q xs ≡ some x
  unfolding find count
  find_of_unique p q [] e h u = cc
  find_of_unique p q (y ∷ ys) {x} e h u = elim (Bool-cases (p y)) [
    | inl here ↦ let same : y ≡ x = ground (arith, here) in rw (same, h) refl
    | inr later ↦
        let rest : find q ys ≡ some x = find_of_unique p q ys (ground arith) h (ground arith) in
        ground (arith, rest, count_of_find q ys rest)
  ]

  pub find-append_new :
      (p : A → Bool) (xs : List A) (x : A)
      → any p xs ≡ false
      → p x ≡ true
      → find p (xs ++ x ∷ []) ≡ some x
  unfolding find
  find-append_new p [] x h c = rw c refl
  find-append_new p (y ∷ ys) x h c = ground (arith, find-append_new p ys x)

  pub any_of_find : (p : A → Bool) (xs : List A) {x : A} → find p xs ≡ some x → any p xs ≡ true
  unfolding find
  any_of_find p [] e = cc
  any_of_find p (y ∷ ys) {x} e = ground (arith, any_of_find p ys {x = x})

  pub any-append_new :
      (p : A → Bool) (xs : List A) (x : A) → p x ≡ true → any p (xs ++ x ∷ []) ≡ true
  any-append_new p [] x h = ground (arith, h)
  any-append_new p (y ∷ ys) x h = ground (arith, any-append_new p ys x h)
