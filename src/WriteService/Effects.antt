-- ===== src/WriteService/Effects.antt =====
-- What a write that returned has done to the memory.
use mathlib.Core.Option
use holographic_plus.Base.{
  ℕ, ◌≡◌, refl, ap, sym, ◌∙◌, String, Bool, true, false, Option, none, some, any, find, arith,
  str_eq, str_eq_iff, str_eq_refl, Bool-cases, inl, inr, Result, ok, raise, find-update,
  any-append_new, if◌then◌else◌, update_where,
}
use holographic_plus.Exec.{Exec, gets-returns, lift}
use holographic_plus.Keeps.{Keeps, keeps_rules}
use holographic_plus.FactStore.{Fact, Store, has_fact_id, index_holds}
use holographic_plus.Policy.Grants.{ConnectionContext}
use holographic_plus.Policy.Writes.{WriteRequest, PolicyDecision}
use holographic_plus.StateSlots.Tables.{update_facts}
use holographic_plus.WriteService.Rows.{
  Vault, Service, Surroundings, LogRow, WriteOutcome, has_client, is_attached,
}
use holographic_plus.WriteService.Ledger.{
  insert_client, has_session, upsert_session, register_client, register_session, attach_provenance,
}
use holographic_plus.WriteService.Log.{
  refuses_log, insert_log, record_factless_decision, settle_factless,
}
use holographic_plus.WriteService.Untyped.{
  check_scope, retire_for, supersede_if_requested, authorize_fact_scope,
}
use holographic_plus.WriteService.Carry.{on_store}

-- Facts, conflicts, observations, provenance and embedding jobs are as they were.
pub record SameMemory (before after : Vault) : Type 0 where
  pub facts : after.store.facts ≡ before.store.facts
  pub conflicts : after.store.conflicts ≡ before.store.conflicts
  pub members : after.store.members ≡ before.store.members
  pub outbox : after.outbox ≡ before.outbox
  pub observations : after.observations ≡ before.observations
  pub provenance : after.provenance ≡ before.provenance

pub same : (v : Vault) → SameMemory v v
same v = record {
  facts = refl;
  conflicts = refl;
  members = refl;
  outbox = refl;
  observations = refl;
  provenance = refl;
}

insert_client-SameMemory :
    (context : ConnectionContext) (now : String) (v0 : Vault)
    → Keeps (SameMemory v0) (insert_client context now)
unfolding insert_client
insert_client-SameMemory context now v0 = record {
  kept = λ v h. elim (Bool-cases (any (has_client context.client_id) v.clients)) [
    | inl there ↦ rw there h
    | inr free ↦ rw free (record {
      facts = h.facts;
      conflicts = h.conflicts;
      members = h.members;
      outbox = h.outbox;
      observations = h.observations;
      provenance = h.provenance;
    })
  ];
}

upsert_session-SameMemory :
    (context : ConnectionContext) (now : String) (v0 : Vault)
    → Keeps (SameMemory v0) (upsert_session context now)
unfolding upsert_session
upsert_session-SameMemory context now v0 = record {
  kept = λ v h. elim (Bool-cases (any (has_session context) v.store.sessions)) [
    | inl there ↦ rw there (record {
      facts = h.facts;
      conflicts = h.conflicts;
      members = h.members;
      outbox = h.outbox;
      observations = h.observations;
      provenance = h.provenance;
    })
    | inr free ↦ rw free (record {
      facts = h.facts;
      conflicts = h.conflicts;
      members = h.members;
      outbox = h.outbox;
      observations = h.observations;
      provenance = h.provenance;
    })
  ];
}

insert_log-SameMemory : (row : LogRow) (v0 : Vault) → Keeps (SameMemory v0) (insert_log row)
unfolding insert_log
insert_log-SameMemory row v0 = record {
  kept = λ v h. elim (Bool-cases (refuses_log row v)) [
    | inl refused ↦ rw refused h
    | inr fine ↦ rw fine (record {
      facts = h.facts;
      conflicts = h.conflicts;
      members = h.members;
      outbox = h.outbox;
      observations = h.observations;
      provenance = h.provenance;
    })
  ];
}

pub register_client-SameMemory :
    (context : ConnectionContext) (now : String) (v0 : Vault)
    → Keeps (SameMemory v0) (register_client context now)
unfolding register_client
register_client-SameMemory context now v0 = search (keeps_rules, insert_client-SameMemory) depth 8

pub register_session-SameMemory :
    (context : ConnectionContext) (now : String) (v0 : Vault)
    → Keeps (SameMemory v0) (register_session context now)
unfolding register_session
register_session-SameMemory context now v0 = search (keeps_rules, upsert_session-SameMemory) depth 8

pub settle_factless-SameMemory :
    (service : Service) (context : ConnectionContext) (r : WriteRequest) (digest : String)
    (at : Surroundings) (d : PolicyDecision) (v0 : Vault)
    → Keeps (SameMemory v0) (settle_factless service context r digest at d)
unfolding settle_factless record_factless_decision
settle_factless-SameMemory service context r digest at d v0 =
    search (keeps_rules, insert_log-SameMemory) depth 10

-- The result names a fact of the requested scope, which is supported by the recorded observation.
pub record IsAttributed (r : WriteRequest) (o : WriteOutcome) (v : Vault) : Type 0 where
  pub fact_id : ℕ
  pub observation_id : ℕ
  pub is_result : o.fact_id ≡ some fact_id
  pub is_observed : o.observation_id ≡ some observation_id
  pub fact : Fact
  pub is_there : find (has_fact_id fact_id) v.store.facts ≡ some fact
  pub in_scope : fact.scope ≡ r.scope
  pub is_supported : any (is_attached fact_id observation_id r.relation) v.provenance ≡ true

-- The fact with this id is there, in this scope.
abbrev pub InScope : ℕ → String → Store → Type 0
InScope i scope s = (f : Fact) × (find (has_fact_id i) s.facts ≡ some f) × (f.scope ≡ scope)

checked_scope :
    (scope : String) (found : Option Fact)
    → check_scope scope found ≡ ok tt
    → (f : Fact) × (found ≡ some f) × (f.scope ≡ scope)
checked_scope scope none h = cc
checked_scope scope (some f) h = elim (Bool-cases (str_eq f.scope scope)) [
  | inl here ↦ (f, refl, (str_eq_iff f.scope scope).0 here)
  | inr other ↦ absurd (cc (rw other at h))
]

pub on_store-returns :
    {A : Type 0} (m : Exec Store A) (v : Vault) {a : A} {v' : Vault}
    → on_store m v ≡ (ok a, v')
    → (s : Store) × (m v.store ≡ (ok a, s)) × (v' ≡ record v { store = s })
unfolding on_store
on_store-returns m v {a} {v'} h = (
  (m v.store).1,
  ap (λ (x : Result _ × Vault). (x.0, (m v.store).1)) h,
  sym (ap (λ (x : Result _ × Vault). x.1) h),
)

lift-inv :
    {S : Type 0} (given : Result (Unit {0})) (s : S) {u : Unit {0}} {t : S}
    → lift given s ≡ (ok u, t)
    → (given ≡ ok tt) × (t ≡ s)
unfolding lift
lift-inv (ok tt) s h = (refl, cc)
lift-inv (raise e) s h = cc

pub authorized-InScope :
    (i : ℕ) (scope : String) (s : Store) {u : Unit {0}} {t : Store}
    → authorize_fact_scope i scope s ≡ (ok u, t)
    → InScope i scope t
unfolding authorize_fact_scope
authorized-InScope i scope s {u} {t} h =
    let (fits, same) = lift-inv _ s (gets-returns _ _ s h) in
    rw same (checked_scope scope (find (has_fact_id i) s.facts) fits)

retire-InScope :
    (i : ℕ) (scope : String) (p : Fact → Bool) (now : String) (survivor : ℕ)
    → Keeps (InScope i scope) (update_facts p (retire_for now survivor))
unfolding update_facts
retire-InScope i scope p now survivor = record {
  kept = λ s h. elim (Bool-cases (index_holds (update_where p (retire_for now survivor) s.facts))) [
    | inr bad ↦ rw bad h
    | inl fine ↦ rw fine (
      (if p h.0 then retire_for now survivor h.0 else h.0),
      find-update (has_fact_id i) p (retire_for now survivor) s.facts (λ x. refl)
          ∙ ap (Option.map (λ x. if p x then retire_for now survivor x else x)) h.1,
      scope_kept (p h.0) h.0 h.2,
    )
  ];
}
  where
    scope_kept :
        (b : Bool) (f : Fact)
        → f.scope ≡ scope
        → (if b then retire_for now survivor f else f).scope ≡ scope
    scope_kept true f e = e
    scope_kept false f e = e

pub superseded-InScope :
    (i : ℕ) (scope : String) (old : Option ℕ) (new_id : ℕ) (now : String)
    → Keeps (InScope i scope) (supersede_if_requested old new_id now)
unfolding supersede_if_requested
superseded-InScope i scope none new_id now = search keeps_rules
superseded-InScope i scope (some old) new_id now = search (keeps_rules, retire-InScope) depth 20

pub attached :
    (i observation_id : ℕ) (r : WriteRequest) (now : String) (v : Vault) {u : Unit {0}} {v' : Vault}
    → attach_provenance i observation_id r now v ≡ (ok u, v')
    → (any (is_attached i observation_id r.relation) v'.provenance ≡ true) × (v'.store ≡ v.store)
unfolding attach_provenance is_attached
attached i observation_id r now v {u} {v'} h =
    elim (Bool-cases (any (is_attached i observation_id r.relation) v.provenance)) [
      | inl there ↦
          let state : v ≡ v' = ap (λ (x : Result (Unit {0}) × Vault). x.1) (rw there at h) in
          rw (← state) (there, refl)
      | inr free ↦
          let state = ap (λ (x : Result (Unit {0}) × Vault). x.1) (rw free at h) in
          rw (← state) (
            any-append_new (is_attached i observation_id r.relation) v.provenance _
                (ground (arith, str_eq_refl r.relation)),
            refl,
          )
    ]
