-- ===== src/EmbeddingJobs/Due.antt =====
-- When a job is due and when its attempts are spent, in the columns of the table.
use holographic_plus.Base.{
  ℕ, ◌≤◌, ◌<◌, ◌≡◌, ◌⊎◌, refl, true, Option, none, some, leb, arith, str_eq_iff, is_none,
  Bool-cases, inl, inr, ◌||◌, ◌&&◌,
}
use holographic_plus.EmbeddingJobs.Rows.{
  Job, JobStatus, pending, processing, completed, dead_letter, is_of_spec, is_waiting, is_leased,
}
use holographic_plus.EmbeddingJobs.Processor.{Worker, expired, is_exhausted, is_claimable}

abbrev pub IsOfModel : Worker → Job → Type 0
IsOfModel w j =
    (j.document_identity ≡ w.spec.document_identity)
    × (j.embedding_version ≡ w.spec.embedding_version)
    × (j.dimensions ≡ w.spec.dimensions)

abbrev pub HasLapsed : ℕ → Job → Type 0
HasLapsed now j = (t : ℕ) × (j.lease_expires_at ≡ some t) × (t ≤ now)

-- Attempts are left, and it waits past its date or its lease has lapsed.
pub record IsDue (w : Worker) (now : ℕ) (j : Job) : Type 0 where
  pub of_model : IsOfModel w j
  pub attempts_left : j.attempts < w.max_attempts
  pub free :
      ((j.status ≡ pending) × (j.available_at ≤ now)) ⊎ ((j.status ≡ processing) × HasLapsed now j)

-- No attempt is left, and nobody works on it: it waits, or its lease has lapsed or has no end.
pub record IsSpent (w : Worker) (now : ℕ) (j : Job) : Type 0 where
  pub of_model : IsOfModel w j
  pub none_left : w.max_attempts ≤ j.attempts
  pub free :
      (j.status ≡ pending)
      ⊎ ((j.status ≡ processing) × ((j.lease_expires_at ≡ none) ⊎ HasLapsed now j))

waiting_status : (s : JobStatus) → is_waiting s ≡ true → s ≡ pending
unfolding is_waiting
waiting_status pending h = refl
waiting_status processing h = cc
waiting_status completed h = cc
waiting_status dead_letter h = cc

leased_status : (s : JobStatus) → is_leased s ≡ true → s ≡ processing
unfolding is_leased
leased_status pending h = cc
leased_status processing h = refl
leased_status completed h = cc
leased_status dead_letter h = cc

lapsed_lem : (now : ℕ) (e : Option ℕ) → expired e now ≡ true → (t : ℕ) × (e ≡ some t) × (t ≤ now)
lapsed_lem now none h = cc
lapsed_lem now (some t) h = (t, refl, ground arith)

of_model_lem : (w : Worker) (j : Job) → is_of_spec w.spec j ≡ true → IsOfModel w j
unfolding is_of_spec
of_model_lem w j h = (
  (str_eq_iff j.document_identity w.spec.document_identity).0 (ground arith),
  (str_eq_iff j.embedding_version w.spec.embedding_version).0 (ground arith),
  ground arith,
)

pub claimable-IsDue : (w : Worker) (now : ℕ) (j : Job) → is_claimable w now j ≡ true → IsDue w now j
unfolding is_claimable
claimable-IsDue w now j h = record {
  of_model = of_model_lem w j (ground arith);
  attempts_left = ground arith;
  free = elim (Bool-cases (is_waiting j.status)) [
    | inl waits ↦ elim (Bool-cases (leb j.available_at now)) [
      | inl due ↦ inl (waiting_status j.status waits, ground arith)
      | inr later ↦
          inr (
            leased_status j.status (ground arith),
            lapsed_lem now j.lease_expires_at (ground arith),
          )
    ]
    | inr busy ↦
        inr
          (leased_status j.status (ground arith), lapsed_lem now j.lease_expires_at (ground arith))
  ];
}

idle_lem :
    (now : ℕ) (e : Option ℕ)
    → (is_none e || expired e now) ≡ true
    → (e ≡ none) ⊎ ((t : ℕ) × (e ≡ some t) × (t ≤ now))
idle_lem now none h = inl refl
idle_lem now (some t) h = inr (t, refl, ground arith)

pub exhausted-IsSpent :
    (w : Worker) (now : ℕ) (j : Job) → is_exhausted w now j ≡ true → IsSpent w now j
unfolding is_exhausted
exhausted-IsSpent w now j h = record {
  of_model = of_model_lem w j (ground arith);
  none_left = ground arith;
  free = elim (Bool-cases (is_waiting j.status)) [
    | inl waits ↦ inl (waiting_status j.status waits)
    | inr busy ↦
        inr (leased_status j.status (ground arith), idle_lem now j.lease_expires_at (ground arith))
  ];
}

model_of_spec : (w : Worker) (j : Job) → IsOfModel w j → is_of_spec w.spec j ≡ true
unfolding is_of_spec
model_of_spec w j (identity, version, dimensions) = ground (
  arith,
  (str_eq_iff j.document_identity w.spec.document_identity).1 identity,
  (str_eq_iff j.embedding_version w.spec.embedding_version).1 version,
  dimensions,
)

free_now :
    (now : ℕ) (status : JobStatus) (e : Option ℕ)
    → (status ≡ pending)
      ⊎ ((status ≡ processing) × ((e ≡ none) ⊎ ((t : ℕ) × (e ≡ some t) × (t ≤ now))))
    → (is_waiting status || (is_leased status && (is_none e || expired e now))) ≡ true
unfolding is_waiting is_leased
free_now now status e (inl waits) = rw waits refl
free_now now status e (inr (works, inl endless)) = rw (works, endless) refl
free_now now status e (inr (works, inr (t, ends, past))) = rw (works, ends) (ground (arith, past))

pub spent_exhausted :
    (w : Worker) (now : ℕ) (j : Job) → IsSpent w now j → is_exhausted w now j ≡ true
unfolding is_exhausted
spent_exhausted w now j s = ground (
  arith,
  s.none_left,
  model_of_spec w j s.of_model,
  free_now now j.status j.lease_expires_at s.free,
)
