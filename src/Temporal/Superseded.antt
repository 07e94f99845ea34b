-- ===== src/Temporal/Superseded.antt =====
-- What `supersede` does to the facts. The key of the table is unique.
use mathlib.Core.Option
use holographic_plus.Base.{
  ℕ, ◌≤◌, ◌≡◌, refl, ◌∙◌, String, Bool, true, false, not, ◌&&◌, Option, none, some, find, count,
  select, update_where, if◌then◌else◌, arith, Bool-cases, Option-cases, inl, inr, count_by_find,
  count_of_none, find-none, find-update, find-sat, update_none, count_never, count-update-le_at,
  List, [], ◌∷◌,
}
use holographic_plus.FactStore.{Fact, Store, has_fact_id}
use holographic_plus.Temporal.Supersede.{
  is_protected, protected_row, is_protected_from, successor_from, is_valid, invalidate, supersede,
}

abbrev pub HasKey : Store → Type 0
HasKey s = (i : ℕ) → count (has_fact_id i) s.facts ≤ 1

select-update :
    (g p : Fact → Bool) (f : Fact → Fact) (xs : List Fact)
    → ((x : Fact) → g (f x) ≡ g x)
    → count (λ x. p x && g x) xs ≡ 0
    → select g (update_where p f xs) ≡ select g xs
unfolding select count update_where
select-update g p f [] same none_there = refl
select-update g p f (x ∷ xs) same none_there = ground (arith, same x, select-update g p f xs same)

-- Of the rows with this id none is protected.
none_protected :
    (s : Store) (i : ℕ)
    → HasKey s
    → is_protected_from i s ≡ false
    → count (λ f. is_valid i f && is_protected f) s.facts ≡ 0
unfolding is_protected_from is_valid
none_protected s i key free = elim (Option-cases (find (has_fact_id i) s.facts)) [
  | inl absent ↦
      count_of_none _ (has_fact_id i) s.facts (λ f h. ground arith)
        (find-none (has_fact_id i) s.facts absent)
  | inr (f, there) ↦
      let unprotected = rw there at free in
      count_by_find (has_fact_id i) _ s.facts f (λ f h. ground arith) (key i) there
      ∙ ground (arith, unprotected)
]

same_protection :
    (now : String) (new : ℕ) (from : Option String) (f : Fact)
    → is_protected (invalidate now new from f) ≡ is_protected f
unfolding is_protected
same_protection now new from f = refl

-- Where fact ids are unique, supersession by heuristics leaves every typed fact and every
-- member of a conflict as it is, whatever ids it is called with: the table restricted to those
-- facts does not change.
pub supersede_spares :
    (now : String) (old new : ℕ) (s : Store)
    → HasKey s
    → select is_protected (supersede now old new s).0.facts ≡ select is_protected s.facts
unfolding supersede
supersede_spares now old new s key = elim (Bool-cases (is_protected_from old s)) [
  | inl refused ↦ rw refused refl
  | inr free ↦ rw free (
      select-update is_protected (is_valid old) (invalidate now new (successor_from new s)) s.facts
        (λ f. same_protection now new (successor_from new s) f) (none_protected s old key free))
]

valid_id : (i : ℕ) (g : Fact) → is_valid i g ≡ true → has_fact_id i g ≡ true
unfolding is_valid
valid_id i g h = ground arith

valid_at : (i : ℕ) (g : Fact) → has_fact_id i g ≡ true → g.invalid_at ≡ none → is_valid i g ≡ true
unfolding is_valid
valid_at i g h e = rw (h, e) refl

allowed :
    (s : Store) (i : ℕ) {g : Fact}
    → find (has_fact_id i) s.facts ≡ some g
    → is_protected g ≡ false
    → is_protected_from i s ≡ false
unfolding is_protected_from
allowed s i there free = rw there free

count_never_here :
    (i : ℕ) (xs : List Fact) → count (λ g. is_valid i g && not (has_fact_id i g)) xs ≡ 0
unfolding is_valid
count_never_here i xs = count_never _ xs (λ g. ground arith)

-- Where fact ids are unique, a valid fact that is neither typed nor in a conflict is kept when
-- it is superseded: it becomes invalid and expired now, linked to its successor, its validity
-- ended by the start of the successor unless it had an end; the facts with other ids stay as
-- they were.
pub supersede_lem :
    (now : String) (old new : ℕ) (s : Store) {f : Fact}
    → HasKey s
    → find (has_fact_id old) s.facts ≡ some f
    → is_protected f ≡ false
    → f.invalid_at ≡ none
    → ((supersede now old new s).1 ≡ true)
      × (find (has_fact_id old) (supersede now old new s).0.facts
          ≡ some (invalidate now new (successor_from new s) f))
      × (select (λ g. not (has_fact_id old g)) (supersede now old new s).0.facts
          ≡ select (λ g. not (has_fact_id old g)) s.facts)
unfolding supersede
supersede_lem now old new s {f} key there free valid =
    let open_way : is_protected_from old s ≡ false = allowed s old there free in
    let mine : is_valid old f ≡ true =
      valid_at old f (find-sat (has_fact_id old) s.facts there) valid in
    (
      rw open_way (
          rw
            (
              count_by_find (has_fact_id old) (is_valid old) s.facts f (λ g h. valid_id old g h)
                  (key old) there,
              mine,
            )
            refl),
      rw open_way (
          find-update (has_fact_id old) (is_valid old) _ s.facts (λ g. refl)
          ∙ rw there (rw mine refl)),
      rw open_way (
          select-update (λ g. not (has_fact_id old g)) (is_valid old) _ s.facts (λ g. refl)
            (count_never_here old s.facts)),
    )

spent_row :
    (i : ℕ) (now : String) (new : ℕ) (from : Option String) (g : Fact)
    → is_valid i (invalidate now new from g) ≡ false
unfolding is_valid
spent_row i now new from g = ground arith

none_valid :
    (i : ℕ) (f : Fact → Fact) (xs : List Fact)
    → ((g : Fact) → is_valid i (f g) ≡ false)
    → count (is_valid i) (update_where (is_valid i) f xs) ≡ 0
none_valid i f xs h = omega (
  arith,
  count-update-le_at (is_valid i) (λ g. false) (is_valid i) f xs (λ g v. ground (arith, h g)),
  count_never (λ g. false) xs (λ g. refl),
)

row_stays_free :
    (i : ℕ) (now : String) (new : ℕ) (from : Option String) (o : Option Fact)
    → protected_row o ≡ false
    → protected_row (Option.map (λ g. if is_valid i g then invalidate now new from g else g) o)
      ≡ false
row_stays_free i now new from none h = h
row_stays_free i now new from (some g) h = elim (Bool-cases (is_valid i g)) [
  | inl valid ↦ rw valid (same_protection now new from g ∙ h)
  | inr invalid ↦ rw invalid h
]

still_free :
    (s : Store) (i : ℕ) (now : String) (new : ℕ) (from : Option String)
    → is_protected_from i s ≡ false
    → is_protected_from i
        (record s { facts = update_where (is_valid i) (invalidate now new from) s.facts })
      ≡ false
unfolding is_protected_from
still_free s i now new from free =
    rw (find-update (has_fact_id i) (is_valid i) (invalidate now new from) s.facts (λ g. refl))
      (row_stays_free i now new from (find (has_fact_id i) s.facts) free)

-- A fact is superseded once: a second call for the same fact, with any successor and at any time,
-- answers False and changes nothing.
pub supersede_twice :
    (now later : String) (old new other : ℕ) (s : Store)
    → let s' = (supersede now old new s).0 in supersede later old other s' ≡ (s', false)
unfolding supersede
supersede_twice now later old new other s = elim (Bool-cases (is_protected_from old s)) [
  | inl refused ↦ rw refused (rw refused refl)
  | inr free ↦
      let f = invalidate now new (successor_from new s) in
      let rows = update_where (is_valid old) f s.facts in
      let spent : count (is_valid old) rows ≡ 0 =
        none_valid old f s.facts (λ g. spent_row old now new (successor_from new s) g) in
      rw free (
        rw (still_free s old now new (successor_from new s) free)
          (rw (update_none (is_valid old) _ rows spent, spent) refl))
]
