-- ===== src/Temporal/Retired.antt =====
-- The two outcomes of `supersede`, in the columns of the tables.
use holographic_plus.Base.{
  ℕ, ◌≡◌, refl, ◌∙◌, find-sat, if◌then◌else◌, String, true, false, not, none, some, ◌⊎◌, find,
  count, select, text_is, is_none, arith, Bool-cases, Option-cases, inl, inr, count_by_find,
  count_of_none, find-none, update_none,
}
use holographic_plus.FactStore.{Fact, Store, has_fact_id}
use holographic_plus.Temporal.Supersede.{
  is_protected, is_protected_from, successor_from, is_valid, invalidate, supersede,
}
use holographic_plus.Temporal.Superseded.{HasKey, supersede_lem}

-- `g` is `f`, retired at `now` for the row `new` of the table: the columns that change, and that no
-- other does.
pub record IsRetired (now : String) (new : ℕ) (s : Store) (f g : Fact) : Type 0 where
  pub was_valid : f.invalid_at ≡ none
  pub was_untyped : text_is f.memory_kind "state" ≡ false
  pub was_undisputed : f.conflict_group ≡ none
  pub invalid_now : g.invalid_at ≡ some now
  pub expired_now : g.expired_at ≡ some now
  pub successor : g.superseded_by ≡ some new
  pub end_kept : (t : String) → f.valid_to ≡ some t → g.valid_to ≡ some t
  pub end_set :
      (h : Fact)
      → find (has_fact_id new) s.facts ≡ some h
      → f.valid_to ≡ none
      → g.valid_to ≡ h.valid_from
  pub rest_kept : f ≡ record g {
    invalid_at = f.invalid_at;
    expired_at = f.expired_at;
    superseded_by = f.superseded_by;
    valid_to = f.valid_to;
  }

-- The row was retired and every other row kept.
pub record IsSuperseded (now : String) (old new : ℕ) (s s' : Store) : Type 0 where
  pub before : Fact
  pub after : Fact
  pub was_there : find (has_fact_id old) s.facts ≡ some before
  pub is_there : find (has_fact_id old) s'.facts ≡ some after
  pub retired : IsRetired now new s before after
  pub others_kept :
      select (λ g. not (has_fact_id old g)) s'.facts ≡ select (λ g. not (has_fact_id old g)) s.facts

invalidated :
    (now : String) (new : ℕ) (s : Store) (f : Fact)
    → f.invalid_at ≡ none
    → is_protected f ≡ false
    → IsRetired now new s f (invalidate now new (successor_from new s) f)
unfolding is_protected successor_from
invalidated now new s f valid free = record {
  was_valid = valid;
  was_untyped = ground arith;
  was_undisputed = ground arith;
  invalid_now = refl;
  expired_now = refl;
  successor = refl;
  end_kept = λ t e. rw e refl;
  end_set = λ h there e. rw (there, e) refl;
  rest_kept = refl;
}

nothing_valid :
    (now : String) (old new : ℕ) (s : Store)
    → is_protected_from old s ≡ false
    → count (is_valid old) s.facts ≡ 0
    → supersede now old new s ≡ (s, false)
unfolding supersede
nothing_valid now old new s free none_there = rw free (
    rw
      (
        update_none (is_valid old) (invalidate now new (successor_from new s)) s.facts none_there,
        none_there,
      )
      refl)

found_valid :
    (old : ℕ) (s : Store) (f : Fact)
    → HasKey s
    → find (has_fact_id old) s.facts ≡ some f
    → count (is_valid old) s.facts ≡ (if is_none f.invalid_at then 1 else 0)
unfolding is_valid
found_valid old s f key there =
    count_by_find (has_fact_id old) (is_valid old) s.facts f (λ g h. ground arith) (key old) there
    ∙ ground (arith, find-sat (has_fact_id old) s.facts there)

absent_valid :
    (old : ℕ) (s : Store) → find (has_fact_id old) s.facts ≡ none → count (is_valid old) s.facts ≡ 0
unfolding is_valid
absent_valid old s absent =
    count_of_none (is_valid old) (has_fact_id old) s.facts (λ f h. ground arith)
      (find-none (has_fact_id old) s.facts absent)

free_row :
    (s : Store) (i : ℕ) {f : Fact}
    → find (has_fact_id i) s.facts ≡ some f
    → is_protected_from i s ≡ false
    → is_protected f ≡ false
unfolding is_protected_from
free_row s i there free = rw there at free

-- Where fact ids are unique, `supersede` either answers False and changes nothing, or it answers
-- True: then the old row was there, valid, not typed state and in no conflict; it stays in the
-- table, is invalid and expired from now on, names its successor, ends where it ended before or
-- else where the successor starts, and keeps its other columns; and the rows with other ids are as
-- they were.
pub supersede_outcome :
    (now : String) (old new : ℕ) (s : Store)
    → HasKey s
    → (supersede now old new s ≡ (s, false))
      ⊎ (((supersede now old new s).1 ≡ true)
          × IsSuperseded now old new s (supersede now old new s).0)
unfolding supersede
supersede_outcome now old new s key = elim (Bool-cases (is_protected_from old s)) [
  | inl refused ↦ inl (rw refused refl)
  | inr free ↦ elim (Option-cases (find (has_fact_id old) s.facts)) [
    | inl absent ↦ inl (nothing_valid now old new s free (absent_valid old s absent))
    | inr (f, there) ↦ elim (Option-cases f.invalid_at) [
      | inr (t, ended) ↦
          inl (nothing_valid now old new s free (rw (found_valid old s f key there, ended) refl))
      | inl valid ↦
          let open_way = free_row s old there free in
          let (answer, found, others) = supersede_lem now old new s key there open_way valid in
          inr (
            answer,
            record {
              before = f;
              after = invalidate now new (successor_from new s) f;
              was_there = there;
              is_there = found;
              retired = invalidated now new s f valid open_way;
              others_kept = others;
            },
          )
    ]
  ]
]
