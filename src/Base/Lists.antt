-- ===== src/Base/Lists.antt =====
-- Tables as lists of rows: what SELECT, UPDATE, DELETE and COUNT do, with their laws.
use Prim.Native.Nat.{ℕ, suc, ◌+◌, ◌≤◌}
use mathlib.Core.Path.{◌≡◌, refl, ap}
use mathlib.Core.Bool.{Bool, true, false, ◌&&◌, ◌||◌, not}
use mathlib.Core.Logic.{inl, inr}
use mathlib.Core.Option.{Option, none, some}
use mathlib.Core.List.{List, [], ◌∷◌, ◌++◌}
use native.Mathlib.Omega.{arith}
use holographic_plus.Base.Tests.{if◌then◌else◌, Bool-cases}

module _ {ℓ} {A : Type ℓ} where
  abbrev pub length : List A → ℕ
  length [] = 0
  length (x ∷ xs) = suc (length xs)

  abbrev pub any : (A → Bool) → List A → Bool
  any p [] = false
  any p (x ∷ xs) = p x || any p xs

  abbrev pub all : (A → Bool) → List A → Bool
  all p [] = true
  all p (x ∷ xs) = p x && all p xs

  -- `SELECT … WHERE p`, in the order of the table.
  unfoldable pub select : (A → Bool) → List A → List A
  select p [] = []
  select p (x ∷ xs) = let rest = select p xs in if p x then x ∷ rest else rest

  -- `fetchone()` of such a query.
  unfoldable pub find : (A → Bool) → List A → Option A
  find p [] = none
  find p (x ∷ xs) = let rest = find p xs in if p x then some x else rest

  -- `UPDATE … SET f WHERE p`.
  unfoldable pub update_where : (A → Bool) → (A → A) → List A → List A
  update_where p f [] = []
  update_where p f (x ∷ xs) = (if p x then f x else x) ∷ update_where p f xs

  -- `SELECT COUNT(*) … WHERE p`, and the row count of a statement with that condition.
  unfoldable pub count : (A → Bool) → List A → ℕ
  count p [] = 0
  count p (x ∷ xs) = (if p x then 1 else 0) + count p xs

module _ {ℓ} {A : Type ℓ} where
  pub count-append : (p : A → Bool) (xs ys : List A) → count p (xs ++ ys) ≡ count p xs + count p ys
  unfolding count
  count-append p [] ys = omega arith
  count-append p (x ∷ xs) ys = omega (arith, count-append p xs ys)

  pub count_mono :
      (p q : A → Bool) (xs : List A) → ((x : A) → p x ≡ true → q x ≡ true) → count p xs ≤ count q xs
  unfolding count
  count_mono p q [] h = omega arith
  count_mono p q (x ∷ xs) h = ground (arith, h x, count_mono p q xs h)

  -- A statement that turns no row into one that satisfies `q` keeps the number of such rows down.
  pub count-update-le :
      (q p : A → Bool) (f : A → A) (xs : List A)
      → ((x : A) → p x ≡ true → q (f x) ≡ true → q x ≡ true)
      → count q (update_where p f xs) ≤ count q xs
  unfolding count update_where
  count-update-le q p f [] h = omega arith
  count-update-le q p f (x ∷ xs) h = ground (arith, h x, count-update-le q p f xs h)

  pub count-update-eq :
      (q p : A → Bool) (f : A → A) (xs : List A)
      → ((x : A) → p x ≡ true → q (f x) ≡ q x)
      → count q (update_where p f xs) ≡ count q xs
  unfolding count update_where
  count-update-eq q p f [] h = refl
  count-update-eq q p f (x ∷ xs) h = ground (arith, h x, count-update-eq q p f xs h)

  pub count-select-le : (q p : A → Bool) (xs : List A) → count q (select p xs) ≤ count q xs
  unfolding count select
  count-select-le q p [] = omega arith
  count-select-le q p (x ∷ xs) = ground (arith, count-select-le q p xs)

  pub length-update :
      (p : A → Bool) (f : A → A) (xs : List A) → length (update_where p f xs) ≡ length xs
  unfolding update_where
  length-update p f [] = refl
  length-update p f (x ∷ xs) = ap suc (length-update p f xs)

  -- A statement whose condition no row meets changes nothing.
  pub update_none :
      (p : A → Bool) (f : A → A) (xs : List A) → count p xs ≡ 0 → update_where p f xs ≡ xs
  unfolding count update_where
  update_none p f [] h = refl
  update_none p f (x ∷ xs) h = ground (arith, update_none p f xs)

  pub delete_none : (p : A → Bool) (xs : List A) → count p xs ≡ 0 → select (λ x. not (p x)) xs ≡ xs
  unfolding count select
  delete_none p [] h = refl
  delete_none p (x ∷ xs) h = ground (arith, delete_none p xs)

  pub count_of_none :
      (p q : A → Bool) (xs : List A)
      → ((x : A) → p x ≡ true → q x ≡ true)
      → count q xs ≡ 0
      → count p xs ≡ 0
  count_of_none p q xs h z = omega (arith, count_mono p q xs h)

  -- Rows that satisfy `q` after an update did so before, or were updated and satisfy `r`.
  pub count-update-add :
      (q r p : A → Bool) (f : A → A) (xs : List A)
      → ((x : A) → p x ≡ true → q (f x) ≡ true → r x ≡ true)
      → count q (update_where p f xs) ≤ count q xs + count r xs
  unfolding count update_where
  count-update-add q r p f [] h = omega arith
  count-update-add q r p f (x ∷ xs) h = ground (arith, h x, count-update-add q r p f xs h)

  pub count_of_not-any : (p : A → Bool) (xs : List A) → any p xs ≡ false → count p xs ≡ 0
  unfolding count
  count_of_not-any p [] h = refl
  count_of_not-any p (x ∷ xs) h = ground (arith, count_of_not-any p xs)

  pub count_of_any : (p : A → Bool) (xs : List A) → any p xs ≡ true → 1 ≤ count p xs
  unfolding count
  count_of_any p [] h = ground arith
  count_of_any p (x ∷ xs) h = ground (arith, count_of_any p xs)

  -- Deleting the rows that meet `p` leaves those apart from it.
  pub select-select :
      (p q : A → Bool) (xs : List A)
      → ((x : A) → p x ≡ true → q x ≡ true)
      → select p (select q xs) ≡ select p xs
  unfolding select
  select-select p q [] h = refl
  select-select p q (x ∷ xs) h = ground (arith, h x, select-select p q xs h)

  pub count-select :
      (p q : A → Bool) (xs : List A) → count p (select q xs) ≡ count (λ x. q x && p x) xs
  unfolding select count
  count-select p q [] = refl
  count-select p q (x ∷ xs) = ground (arith, count-select p q xs)

  pub count_never : (p : A → Bool) (xs : List A) → ((x : A) → p x ≡ false) → count p xs ≡ 0
  unfolding count
  count_never p [] h = refl
  count_never p (x ∷ xs) h = ground (arith, h x, count_never p xs h)

  pub update-update :
      (p : A → Bool) (f g : A → A) (xs : List A)
      → ((x : A) → p x ≡ true → p (f x) ≡ true)
      → ((x : A) → g (f x) ≡ f x)
      → update_where p g (update_where p f xs) ≡ update_where p f xs
  unfolding update_where
  update-update p f g [] h e = refl
  update-update p f g (x ∷ xs) h e = elim (Bool-cases (p x)) [
    | inl c ↦ rw c (rw (h x c) (rw (e x) (ap (◌∷◌ (f x)) (update-update p f g xs h e))))
    | inr c ↦ rw c (rw c (ap (◌∷◌ x) (update-update p f g xs h e)))
  ]

  pub count-split :
      (p q : A → Bool) (xs : List A)
      → count p xs ≡ count (λ x. p x && q x) xs + count (λ x. p x && not (q x)) xs
  unfolding count
  count-split p q [] = refl
  count-split p q (x ∷ xs) = ground (arith, count-split p q xs)

  pub select_of_none : (p : A → Bool) (xs : List A) → count p xs ≡ 0 → select p xs ≡ []
  unfolding count select
  select_of_none p [] h = refl
  select_of_none p (x ∷ xs) h = ground (arith, select_of_none p xs)

  pub count-update-le_at :
      (q r p : A → Bool) (f : A → A) (xs : List A)
      → ((x : A) → q (if p x then f x else x) ≡ true → r x ≡ true)
      → count q (update_where p f xs) ≤ count r xs
  unfolding count update_where
  count-update-le_at q r p f [] h = omega arith
  count-update-le_at q r p f (x ∷ xs) h = ground (arith, h x, count-update-le_at q r p f xs h)

  -- Each updated row counts.
  pub count-update-ge :
      (q p : A → Bool) (f : A → A) (xs : List A)
      → ((x : A) → p x ≡ true → q (f x) ≡ true)
      → count p xs ≤ count q (update_where p f xs)
  unfolding count update_where
  count-update-ge q p f [] h = omega arith
  count-update-ge q p f (x ∷ xs) h = ground (arith, h x, count-update-ge q p f xs h)

  pub count-update-keep :
      (q p : A → Bool) (f : A → A) (xs : List A)
      → ((x : A) → q x ≡ true → q (f x) ≡ true)
      → count q xs ≤ count q (update_where p f xs)
  unfolding count update_where
  count-update-keep q p f [] h = omega arith
  count-update-keep q p f (x ∷ xs) h = ground (arith, h x, count-update-keep q p f xs h)

  pub any_of_count : (p : A → Bool) (xs : List A) → 1 ≤ count p xs → any p xs ≡ true
  unfolding count
  any_of_count p [] h = ground arith
  any_of_count p (x ∷ xs) h = ground (arith, any_of_count p xs)
