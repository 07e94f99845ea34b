-- ===== src/WriteService/Trail.antt =====
-- The trail of a logged write: its row of the log leads to the fact's provenance and on to the
-- observation; and what each statement does to it.
use holographic_plus.Base.{
  ℕ, ◌≡◌, refl, ap, String, Bool, true, false, not, ◌&&◌, Option, none, some, List, [], ◌∷◌, ◌++◌,
  any, count, find, ◌==◌, str_eq, arith, Bool-cases, inl, inr, count_of_none, count-append,
  find-sat, any-append_new,
}
use holographic_plus.Exec.{Exec, ◌>>=◌}
use holographic_plus.Keeps.{Keeps, Keeps-bind, keeps_rules}
use holographic_plus.Ensures.{Ensures, Ensures-bind, Ensures-Keeps, Leaves}
use holographic_plus.EmbeddingJobs.Rows.{EmbeddingSpec}
use holographic_plus.FactStore.{Store}
use holographic_plus.Policy.Grants.{ConnectionContext}
use holographic_plus.Policy.Writes.{WriteRequest}
use holographic_plus.WriteService.Rows.{
  Vault, Service, has_client, Observation, Provenance, LogRow, is_attached, is_observed,
  next_observation_id,
}
use holographic_plus.WriteService.Ledger.{
  has_session, insert_client, upsert_session, register_client, register_session, insert_observation,
  record_observation, observation_id_of, attach_provenance, new_observation,
}
use holographic_plus.WriteService.Log.{refuses_log, insert_log}
use holographic_plus.WriteService.Carry.{on_store}
use holographic_plus.WriteService.Write.{enqueue_fact, enqueue_embedding}

abbrev pub links : ℕ → ℕ → Provenance → Bool
links i k p = p.fact_id == i && p.observation_id == k

abbrev pub is_from : ℕ → String → Observation → Bool
is_from k client_id o = o.observation_id == k && str_eq o.client_id client_id

-- Of a write without a fact nothing is asked.
abbrev pub is_linked : List Provenance → List Observation → String → Option ℕ → Option ℕ → Bool
is_linked ps os client_id none k = true
is_linked ps os client_id (some i) none = false
is_linked ps os client_id (some i) (some k) = any (links i k) ps && any (is_from k client_id) os

abbrev pub is_traced : List Provenance → List Observation → LogRow → Bool
is_traced ps os row = is_linked ps os row.client_id row.fact_id row.observation_id

-- Each row of the log that names a fact names an observation of its client, and the fact is attached
-- to that observation.
abbrev pub TracedIn : List LogRow → List Provenance → List Observation → Type 0
TracedIn log ps os = count (λ row. not (is_traced ps os row)) log ≡ 0

abbrev pub IsTraced : Vault → Type 0
IsTraced v = TracedIn v.log v.provenance v.observations

any-append {ℓ} :
    {A : Type ℓ} (p : A → Bool) (xs ys : List A) → any p xs ≡ true → any p (xs ++ ys) ≡ true
any-append p [] ys h = absurd (cc h)
any-append p (x ∷ xs) ys h = ground (arith, any-append p xs ys)

append_none {ℓ} : {A : Type ℓ} (xs : List A) → xs ++ [] ≡ xs
append_none [] = refl
append_none (x ∷ xs) = ap (λ ys. x ∷ ys) (append_none xs)

any_by_find {ℓ} :
    {A : Type ℓ} (p q : A → Bool) (xs : List A) {x : A}
    → find p xs ≡ some x
    → q x ≡ true
    → any q xs ≡ true
unfolding find
any_by_find p q [] e h = cc
any_by_find p q (y ∷ xs) {x} e h = elim (Bool-cases (p y)) [
  | inl here ↦ let same : y ≡ x = cc (rw here at e) in ground (arith, ap q same)
  | inr there ↦ ground (arith, any_by_find p q xs {x = x} (rw there at e) h)
]

any_weaken {ℓ} :
    {A : Type ℓ} (p q : A → Bool) (xs : List A)
    → ((x : A) → p x ≡ true → q x ≡ true)
    → any p xs ≡ true
    → any q xs ≡ true
any_weaken p q [] f h = h
any_weaken p q (x ∷ xs) f h = ground (arith, f x, any_weaken p q xs f)

linked_more :
    (ps : List Provenance) (os : List Observation) (p : List Provenance) (o : List Observation)
    (client_id : String) (i k : Option ℕ)
    → is_linked ps os client_id i k ≡ true
    → is_linked (ps ++ p) (os ++ o) client_id i k ≡ true
linked_more ps os p o client_id none k h = refl
linked_more ps os p o client_id (some i) none h = h
linked_more ps os p o client_id (some i) (some k) h =
    ground (arith, any-append (links i k) ps p, any-append (is_from k client_id) os o)

-- Further rows keep every trail.
traced_more :
    (log : List LogRow) (ps : List Provenance) (os : List Observation) (p : List Provenance)
    (o : List Observation)
    → count (λ row. not (is_traced ps os row)) log ≡ 0
    → count (λ row. not (is_traced (ps ++ p) (os ++ o) row)) log ≡ 0
traced_more log ps os p o h =
    count_of_none (λ row. not (is_traced (ps ++ p) (os ++ o) row))
      (λ row. not (is_traced ps os row)) log
      (λ row lost.
        ground (arith, linked_more ps os p o row.client_id row.fact_id row.observation_id))
      h

traced_more_observed :
    (log : List LogRow) (ps : List Provenance) (os o : List Observation)
    → count (λ row. not (is_traced ps os row)) log ≡ 0
    → count (λ row. not (is_traced ps (os ++ o) row)) log ≡ 0
traced_more_observed log ps os o h = rw (append_none ps) at (traced_more log ps os [] o h)

traced_more_attached :
    (log : List LogRow) (ps p : List Provenance) (os : List Observation)
    → count (λ row. not (is_traced ps os row)) log ≡ 0
    → count (λ row. not (is_traced (ps ++ p) os row)) log ≡ 0
traced_more_attached log ps p os h = rw (append_none os) at (traced_more log ps os p [] h)

-- The observation is there; and the fact is attached to it, too.
abbrev pub RecordedIn : String → ℕ → List LogRow → List Provenance → List Observation → Type 0
RecordedIn client_id k log ps os = TracedIn log ps os × (any (is_from k client_id) os ≡ true)

abbrev pub AttachedIn : String → ℕ → ℕ → List LogRow → List Provenance → List Observation → Type 0
AttachedIn client_id i k log ps os = RecordedIn client_id k log ps os × (any (links i k) ps ≡ true)

abbrev pub IsRecorded : String → ℕ → Vault → Type 0
IsRecorded client_id k v = RecordedIn client_id k v.log v.provenance v.observations

abbrev pub IsAttachedTo : String → ℕ → ℕ → Vault → Type 0
IsAttachedTo client_id i k v = AttachedIn client_id i k v.log v.provenance v.observations

insert_observation-IsTraced :
    (context : ConnectionContext) (r : WriteRequest) (digest now : String)
    → Keeps IsTraced (insert_observation context r digest now)
unfolding insert_observation
insert_observation-IsTraced context r digest now = record {
  kept = λ v h.
      elim (Bool-cases (
        any (is_observed context.client_id digest context.session_id r.source_type)
          v.observations)) [
            | inl there ↦ rw there h
            | inr free ↦ rw free (
                traced_more_observed v.log v.provenance v.observations
                  (new_observation context r digest now (next_observation_id v.observations) ∷ [])
                  h)
          ];
}

observation_row :
    (client_id digest session_id source_type : String) (v : Vault) (found : Option Observation)
    → find (is_observed client_id digest session_id source_type) v.observations ≡ found
    → IsTraced v
    → Leaves (λ k. IsRecorded client_id k) IsTraced (observation_id_of found, v)
unfolding is_observed
observation_row client_id digest session_id source_type v none e h = h
observation_row client_id digest session_id source_type v (some o) e h = (
  h,
  any_by_find (is_observed client_id digest session_id source_type)
      (is_from o.observation_id client_id) v.observations e
      (ground
        (arith, find-sat (is_observed client_id digest session_id source_type) v.observations e)),
)

-- The observation that is recorded is one of the client's.
pub record_observation-IsRecorded :
    (service : Service) (context : ConnectionContext) (r : WriteRequest) (now : String)
    → Ensures IsTraced
        (IsRecorded context.client_id)
        IsTraced
        (record_observation service context r now)
unfolding record_observation find ◌>>=◌
record_observation-IsRecorded service context r now =
    let digest = service.observation_sha256 context r in
    Ensures-bind _ _ (Ensures-Keeps _ (λ s h. h) (insert_observation-IsTraced context r digest now))
      (λ u. record {
        ensured = λ v h.
            observation_row context.client_id digest context.session_id r.source_type v _ refl h;
      })

attached_row :
    (client_id : String) (i k : ℕ) (r : WriteRequest) (now : String) (v : Vault)
    → IsRecorded client_id k v
    → Leaves (λ u. IsAttachedTo client_id i k) IsTraced (attach_provenance i k r now v)
unfolding attach_provenance is_attached
attached_row client_id i k r now v h =
    elim (Bool-cases (any (is_attached i k r.relation) v.provenance)) [
      | inl there ↦ rw there (
        h,
        any_weaken (is_attached i k r.relation) (links i k) v.provenance (λ p q. ground arith)
            there,
      )
      | inr free ↦ rw free (
        (traced_more_attached v.log v.provenance _ v.observations h.0, h.1),
        any-append_new (links i k) v.provenance _ (ground arith),
      )
    ]

-- The fact is attached to the observation.
pub attach_provenance-IsAttachedTo :
    (client_id : String) (i k : ℕ) (r : WriteRequest) (now : String)
    → Ensures
        (IsRecorded client_id k)
        (λ u. IsAttachedTo client_id i k)
        IsTraced
        (attach_provenance i k r now)
attach_provenance-IsAttachedTo client_id i k r now = record {
  ensured = λ v h. attached_row client_id i k r now v h;
}

-- A row is logged whose trail is there.
pub insert_log-IsTraced :
    (row : LogRow) (P : Vault → Type 0)
    → ((v : Vault) → P v → IsTraced v × (is_traced v.provenance v.observations row ≡ true))
    → Ensures P (λ u. IsTraced) IsTraced (insert_log row)
unfolding insert_log count
insert_log-IsTraced row P trail = record {
  ensured = λ v h. elim (Bool-cases (refuses_log row v)) [
    | inl refused ↦ rw refused (trail v h).0
    | inr fine ↦ rw fine (
        ground (
          arith,
          count-append (λ row. not (is_traced v.provenance v.observations row)) v.log (row ∷ []),
          trail v h,
        ))
  ];
}

-- What touches neither the log nor provenance nor observations keeps every trail.
module _ (R : List LogRow → List Provenance → List Observation → Type 0) where
  abbrev pub OfTrail : Vault → Type 0
  OfTrail v = R v.log v.provenance v.observations

  pub on_store-OfTrail : {A : Type 0} (m : Exec Store A) → Keeps OfTrail (on_store m)
  unfolding on_store
  on_store-OfTrail m = record { kept = λ v h. h }

  pub enqueue_fact-OfTrail :
      (service : Service) (spec : EmbeddingSpec) (clock i : ℕ)
      → Keeps OfTrail (enqueue_fact service spec clock i)
  enqueue_fact-OfTrail service spec clock i = record { kept = λ v h. h }

  pub enqueue_embedding-OfTrail :
      (service : Service) (clock : ℕ) (spec : Option EmbeddingSpec) (i : Option ℕ)
      → Keeps OfTrail (enqueue_embedding service clock spec i)
  unfolding enqueue_embedding
  enqueue_embedding-OfTrail service clock none i = search keeps_rules
  enqueue_embedding-OfTrail service clock (some spec) none = search keeps_rules
  enqueue_embedding-OfTrail service clock (some spec) (some i) =
      Keeps-bind _ _ (enqueue_fact-OfTrail service spec clock i) (λ _. search keeps_rules)

  insert_client-OfTrail :
      (context : ConnectionContext) (now : String) → Keeps OfTrail (insert_client context now)
  unfolding insert_client
  insert_client-OfTrail context now = record {
    kept = λ v h. elim (Bool-cases (any (has_client context.client_id) v.clients)) [
      | inl there ↦ rw there h
      | inr free ↦ rw free h
    ];
  }

  upsert_session-OfTrail :
      (context : ConnectionContext) (now : String) → Keeps OfTrail (upsert_session context now)
  unfolding upsert_session
  upsert_session-OfTrail context now = record {
    kept = λ v h. elim (Bool-cases (any (has_session context) v.store.sessions)) [
      | inl there ↦ rw there h
      | inr free ↦ rw free h
    ];
  }

  pub register_client-OfTrail :
      (context : ConnectionContext) (now : String) → Keeps OfTrail (register_client context now)
  unfolding register_client
  register_client-OfTrail context now = search (keeps_rules, insert_client-OfTrail) depth 8

  pub register_session-OfTrail :
      (context : ConnectionContext) (now : String) → Keeps OfTrail (register_session context now)
  unfolding register_session
  register_session-OfTrail context now = search (keeps_rules, upsert_session-OfTrail) depth 8
