-- ===== src/StateSlots/Index.antt =====
-- The partial unique index: at most one current, unconflicted value of a slot.
use holographic_plus.Base.{
  ◌≤◌, ◌≡◌, subst, String, Bool, true, some, List, [], ◌∷◌, str_eq_iff, text_is_eq, all, find,
  count, find-sat, arith, Bool-cases, Option-cases, inl, inr, find-none,
}
use holographic_plus.FactStore.{Fact, is_indexed, slot_is_unique, index_holds}

abbrev pub UniqueSlots : List Fact → Type 0
UniqueSlots facts =
    (scope subject predicate : String) → count (is_indexed scope subject predicate) facts ≤ 1

all_at_find :
    {A : Type 0} (p q : A → Bool) (xs : List A) {x : A}
    → all p xs ≡ true
    → find q xs ≡ some x
    → p x ≡ true
unfolding find
all_at_find p q [] h e = cc
all_at_find p q (y ∷ ys) {x} h e = elim (Bool-cases (q y)) [
  | inl here ↦ let same : y ≡ x = ground arith in rw (← same) (ground arith)
  | inr later ↦ all_at_find p q ys (ground arith) (ground arith)
]

indexed_keys :
    (scope subject predicate : String) (f : Fact)
    → is_indexed scope subject predicate f ≡ true
    → (f.scope ≡ scope) × (f.subject_key ≡ some subject) × (f.predicate_key ≡ some predicate)
unfolding is_indexed
indexed_keys scope subject predicate f h = (
  (str_eq_iff f.scope scope).0 (ground arith),
  text_is_eq f.subject_key subject (ground arith),
  text_is_eq f.predicate_key predicate (ground arith),
)

unique_count :
    (facts : List Fact) (f : Fact) (subject predicate : String)
    → slot_is_unique facts f ≡ true
    → f.subject_key ≡ some subject
    → f.predicate_key ≡ some predicate
    → count (is_indexed f.scope subject predicate) facts ≤ 1
unfolding slot_is_unique
unique_count facts f subject predicate h p q = ground arith

-- The check that the database makes row by row is the uniqueness of each slot.
pub index_holds→UniqueSlots : (facts : List Fact) → index_holds facts ≡ true → UniqueSlots facts
unfolding index_holds
index_holds→UniqueSlots facts h scope subject predicate =
    elim (Option-cases (find (is_indexed scope subject predicate) facts)) [
      | inl nothing ↦ omega (arith, find-none (is_indexed scope subject predicate) facts nothing)
      | inr (f, found) ↦
          let (p, q, r) = indexed_keys scope subject predicate f (find-sat _ facts found) in
          let unique : slot_is_unique facts f ≡ true =
            all_at_find (slot_is_unique facts) (is_indexed scope subject predicate) facts h found in
          subst (λ (s : String). count (is_indexed s subject predicate) facts ≤ 1) p
            (unique_count facts f subject predicate unique q r)
    ]
