-- ===== src/WriteService/Parts.antt =====
-- What each part of a write keeps, the write of a new key keeps.
use holographic_plus.Base.{ℕ, String, Option, none, some, Result}
use holographic_plus.Exec.{Exec}
use holographic_plus.Keeps.{Keeps, Keeps-bind, keeps_rules}
use holographic_plus.Policy.Grants.{ConnectionContext}
use holographic_plus.Policy.Writes.{WriteRequest, PolicyDecision}
use holographic_plus.EmbeddingJobs.Rows.{EmbeddingSpec}
use holographic_plus.StateSlots.Candidate.{StateCandidate}
use holographic_plus.StateSlots.Frames.{KeptByStatements}
use holographic_plus.FactStore.{Store}
use holographic_plus.WriteService.Rows.{Vault, Service, Surroundings, LogRow, Query}
use holographic_plus.WriteService.Ledger.{insert_observation, record_observation, attach_provenance}
use holographic_plus.WriteService.Log.{insert_log, record_factless_decision, settle_factless}
use holographic_plus.WriteService.Typed.{ExtractedTypedFields}
use holographic_plus.WriteService.Plan.{Plan}
use holographic_plus.WriteService.Untyped.{authorize_fact_scope}
use holographic_plus.WriteService.Carry.{on_store, write_fact, Matches, Carried, carry_out}
use holographic_plus.WriteService.Write.{
  reads, enqueue_fact, enqueue_embedding, supersede_requested, conclude, perform, perform_or_refuse,
  write_new,
}
use holographic_plus.WriteService.Frames.{
  carry_out-kept, authorize_fact_scope-kept, supersede_requested-kept,
}

-- `P` of the store, by way of `Q` of the tables of facts and conflicts.
pub record KeptByParts (service : Service) (Q : Store → Type 0) (P : Vault → Type 0) : Type 1 where
  pub statements : KeptByStatements Q
  pub by_writer : (r : WriteRequest) (i : ℕ) → Keeps Q (write_fact service r i)
  pub by_store : {A : Type 0} (m : Exec Store A) → Keeps Q m → Keeps P (on_store m)
  pub by_observation :
      (context : ConnectionContext) (r : WriteRequest) (digest now : String)
      → Keeps P (insert_observation context r digest now)
  pub by_enqueue :
      (spec : EmbeddingSpec) (clock i : ℕ) → Keeps P (enqueue_fact service spec clock i)
  pub by_provenance :
      (i observation_id : ℕ) (r : WriteRequest) (now : String)
      → Keeps P (attach_provenance i observation_id r now)
  pub by_log : (row : LogRow) → Keeps P (insert_log row)

pub Keeps-reads : {S A : Type 0} {P : S → Type 0} (f : S → Result A) → Keeps P (reads f)
unfolding reads
Keeps-reads f = record { kept = λ v h. h }

module _ {service : Service} {Q : Store → Type 0} {P : Vault → Type 0} (k : KeptByParts service Q P)
    (at : Surroundings) (context : ConnectionContext) (r : WriteRequest)
    (candidate : Option StateCandidate) where
  carried-kept :
      (plan : Plan) (found : Matches) (typed : Option ExtractedTypedFields) (i : ℕ)
      → Keeps P (on_store (carry_out service context r at plan found typed i))
  carried-kept plan found typed i =
      k.by_store _
        (carry_out-kept k.statements service context r at (k.by_writer r) plan found typed i)

  scope-kept : (i : ℕ) (scope : String) → Keeps P (on_store (authorize_fact_scope i scope))
  scope-kept i scope = k.by_store _ (authorize_fact_scope-kept k.statements i scope)

  requested-kept :
      (i : ℕ) → Keeps P (on_store (supersede_requested service at context r candidate i))
  requested-kept i =
      k.by_store _ (supersede_requested-kept k.statements service at context r candidate i)

  inserted-kept : (digest : String) → Keeps P (insert_observation context r digest at.recorded_at)
  inserted-kept digest = k.by_observation context r digest at.recorded_at

  observation-kept : Keeps P (record_observation service context r at.recorded_at)
  unfolding record_observation
  observation-kept = search (keeps_rules, inserted-kept) depth 8

  enqueue-kept :
      (spec : Option EmbeddingSpec) (i : Option ℕ)
      → Keeps P (enqueue_embedding service at.clock spec i)
  unfolding enqueue_embedding
  enqueue-kept none i = search keeps_rules
  enqueue-kept (some spec) none = search keeps_rules
  enqueue-kept (some spec) (some i) =
      Keeps-bind _ _ (k.by_enqueue spec at.clock i) (λ _. search keeps_rules)

  provenance-kept :
      (i observation_id : ℕ) → Keeps P (attach_provenance i observation_id r at.recorded_at)
  provenance-kept i observation_id = k.by_provenance i observation_id r at.recorded_at

  log-kept : (row : LogRow) → Keeps P (insert_log row)
  log-kept = k.by_log

  conclude-kept :
      (plan : Plan) (found : Matches) (carried : Carried) (i : ℕ)
      → Keeps P (conclude service at context r candidate plan found carried i)
  unfolding conclude
  conclude-kept plan found carried i =
      search (keeps_rules, scope-kept, requested-kept, enqueue-kept, provenance-kept, log-kept)
        depth 20

  perform-kept :
      (plan : Plan) (typed : Option ExtractedTypedFields) (query : Query)
      → Keeps P (perform service at context r candidate plan typed query)
  unfolding perform
  perform-kept plan typed query =
      search (keeps_rules, observation-kept, carried-kept, conclude-kept) depth 20

  settle_factless-kept :
      (digest : String) (d : PolicyDecision)
      → Keeps P (settle_factless service context r digest at d)
  unfolding settle_factless record_factless_decision
  settle_factless-kept digest d = search (keeps_rules, log-kept) depth 10

  perform_or_refuse-kept :
      (plan : Plan) (d : Option PolicyDecision) (typed : Option ExtractedTypedFields)
      (query : Query)
      → Keeps P (perform_or_refuse service at context r candidate plan d typed query)
  perform_or_refuse-kept plan none typed query = perform-kept plan typed query
  perform_or_refuse-kept plan (some d) typed query = settle_factless-kept _ d

  pub write_new-kept :
      (typed : Option ExtractedTypedFields) (query : Query)
      → Keeps P (write_new service at context r candidate typed query)
  unfolding write_new
  write_new-kept typed query = search (keeps_rules, Keeps-reads, perform_or_refuse-kept) depth 10
