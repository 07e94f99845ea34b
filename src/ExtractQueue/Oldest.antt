-- ===== src/ExtractQueue/Oldest.antt =====
-- `ORDER BY id LIMIT 1` gives the row of the least id that meets the condition, if there is one.
use holographic_plus.Base.{
  ℕ, ◌≤◌, ◌≡◌, refl, Bool, true, ◌&&◌, none, some, List, [], ◌∷◌, ltb, find, count, arith,
  Option-cases, inl, inr, count_of_find, count_mono,
}
use holographic_plus.ExtractQueue.Rows.{Row, has_id}
use holographic_plus.ExtractQueue.Enqueue.{oldest}

-- `oldest` gives nothing exactly when no row meets the condition.
pub oldest-none : (p : Row → Bool) (rows : List Row) → oldest p rows ≡ none → count p rows ≡ 0
unfolding oldest count
oldest-none p [] h = refl
oldest-none p (r ∷ rs) h = ground (arith, oldest-none p rs)

pub oldest-sat : (p : Row → Bool) (rows : List Row) {r : Row} → oldest p rows ≡ some r → p r ≡ true
unfolding oldest
oldest-sat p [] h = cc
oldest-sat p (x ∷ xs) {r} h = elim (Option-cases (oldest p xs)) [
  | inl e ↦ ground arith
  | inr (s, e) ↦ ground (arith, oldest-sat p xs e)
]

-- No row that meets the condition has a smaller id.
pub oldest-least :
    (p : Row → Bool) (rows : List Row) {r : Row}
    → oldest p rows ≡ some r
    → count (λ s. p s && ltb s.id r.id) rows ≡ 0
unfolding oldest count
oldest-least p [] h = refl
oldest-least p (x ∷ xs) {r} h = elim (Option-cases (oldest p xs)) [
  | inl e ↦
      let below : count (λ s. p s && ltb s.id r.id) xs ≤ count p xs =
        count_mono _ _ xs (λ s c. ground arith) in
      ground (arith, oldest-none p xs e)
  | inr (s, e) ↦
      let first : r.id ≤ s.id = ground arith in
      let below : count (λ t. p t && ltb t.id r.id) xs ≤ count (λ t. p t && ltb t.id s.id) xs =
        count_mono _ _ xs (λ t c. ground arith) in
      let least : count (λ t. p t && ltb t.id s.id) xs ≡ 0 = oldest-least p xs e in ground arith
]

pub oldest-find :
    (p : Row → Bool) (rows : List Row) {r : Row}
    → ((i : ℕ) → count (has_id i) rows ≤ 1)
    → oldest p rows ≡ some r
    → find (has_id r.id) rows ≡ some r
unfolding oldest count find
oldest-find p [] u h = cc
oldest-find p (x ∷ xs) {r} u h =
    let later : (i : ℕ) → count (has_id i) xs ≤ 1 = λ i. omega (arith, u i) in
    elim (Option-cases (oldest p xs)) [
      | inl e ↦ ground arith
      | inr (s, e) ↦
          let there : find (has_id s.id) xs ≡ some s = oldest-find p xs later e in
          ground (arith, u s.id, count_of_find (has_id s.id) xs there)
    ]

pub count_of_oldest :
    (p : Row → Bool) (rows : List Row) {r : Row} → oldest p rows ≡ some r → 1 ≤ count p rows
unfolding oldest count
count_of_oldest p [] h = cc
count_of_oldest p (x ∷ xs) {r} h = elim (Option-cases (oldest p xs)) [
  | inl e ↦ ground arith
  | inr (s, e) ↦ ground (arith, count_of_oldest p xs e)
]
