-- ===== src/WriteService/Write.antt =====
-- `MemoryWriteService.write` and `write_batch`.
use holographic_plus.Base.{
  ℕ, String, Bool, true, false, not, Option, none, some, List, [], ◌∷◌, ◌++◌, str_eq, is_none, ltb,
  Result, ok, raise, value_error, idempotency_conflict, if◌then◌else◌,
}
use holographic_plus.Exec.{Exec, pure, gets, check, lift, transaction, ◌>>=◌, ◌>>◌}
use holographic_plus.FactStore.{Store}
use holographic_plus.EmbeddingJobs.Rows.{Outbox, EmbeddingSpec}
use holographic_plus.EmbeddingJobs.Outbox.{enqueue_in_transaction}
use holographic_plus.Policy.Grants.{ConnectionContext, authorize_context}
use holographic_plus.Policy.Writes.{WriteRequest, PolicyDecision}
use holographic_plus.StateSlots.Candidate.{StateCandidate, SlotDecision}
use holographic_plus.WriteService.Rows.{
  Vault, Service, Surroundings, LogRow, WriteOutcome, FactWriteResult, NearDuplicateCandidate,
  Query, BatchItem, DetailValue, of_text, of_id, of_ids, of_slot, of_near,
}
use holographic_plus.WriteService.Typed.{ExtractedTypedFields, prelude}
use holographic_plus.WriteService.Plan.{Plan, is_supersede, plan_write}
use holographic_plus.WriteService.Queries.{prepare_near_dedup_query, prepare_queries}
use holographic_plus.WriteService.Untyped.{
  UntypedContradiction, supersede_if_requested, authorize_fact_scope,
}
use holographic_plus.WriteService.Ledger.{
  register_client, register_session, record_observation, attach_provenance,
}
use holographic_plus.WriteService.Log.{load_prior, insert_log, outcome_from_row, settle_factless}
use holographic_plus.WriteService.Carry.{
  on_store, Matches, Carried, match_untyped, carry_out, action_name,
}

-- A read that may raise.
module _ {S A : Type 0} where
  unfoldable pub reads : (S → Result A) → Exec S A
  reads f s = (f s, s)

abbrev with_outbox : Vault → Result ℕ × Outbox → Result ℕ × Vault
with_outbox v (result, outbox) = (result, record v { outbox = outbox })

abbrev pub enqueue_fact : Service → EmbeddingSpec → ℕ → ℕ → Exec Vault ℕ
enqueue_fact service spec clock i v =
    with_outbox v (enqueue_in_transaction service.sha256 spec v.store.facts clock i v.outbox)

-- `self._embedding_enqueue`, where it is given, is that of the outbox.
unfoldable pub enqueue_embedding :
    Service → ℕ → Option EmbeddingSpec → Option ℕ → Exec Vault (Unit {0})
unfolding enqueue_in_transaction
enqueue_embedding service clock none i = pure tt
enqueue_embedding service clock (some spec) none = pure tt
enqueue_embedding service clock (some spec) (some i) = do
  job_id ← enqueue_fact service spec clock i
  pure tt

abbrev near_details : Option NearDuplicateCandidate → ℕ → List (String × DetailValue)
near_details none survivor = []
near_details (some near) survivor =
    ("near_duplicate", of_near near.fact_id near.cosine survivor) ∷ []

abbrev conflict_details : Option String → List (String × DetailValue)
conflict_details none = []
conflict_details (some conflict_id) = ("conflict_id", of_text conflict_id) ∷ []

abbrev state_details : SlotDecision → Option String → List (String × DetailValue)
state_details d conflict_id =
    ("state_action", of_text (action_name d.action))
    ∷ ("state_slot", of_slot d.scope d.subject_key d.predicate_key)
    ∷ ((if is_supersede d.action then ("superseded_fact_id", of_id d.target_fact_id) ∷ [] else [])
        ++ conflict_details conflict_id)

-- `sorted({a, b})`
abbrev sorted_pair : ℕ → ℕ → List ℕ
sorted_pair a b = if ltb a b then a ∷ b ∷ [] else if ltb b a then b ∷ a ∷ [] else a ∷ []

abbrev dispute_details :
    WriteRequest → Option UntypedContradiction → Option String → ℕ → List (String × DetailValue)
dispute_details r (some m) (some conflict_id) i =
    ("conflict_id", of_text conflict_id)
    ∷ ("member_fact_ids", of_ids (sorted_pair m.fact_id i))
    ∷ ("conflict_slot", of_slot r.scope m.subject_key m.predicate_key)
    ∷ []
dispute_details r m conflict_id i = []

-- What is added to the detail of the result.
abbrev pub details :
    WriteRequest → Option SlotDecision → Matches → Carried → Bool → List (String × DetailValue)
details r decision found carried superseded =
    near_details found.near carried.result.fact_id
    ++ (if superseded then ("superseded_fact_id", of_id r.supersede_fact_id) ∷ [] else [])
    ++ (elim decision [
      | some d ↦ state_details d carried.conflict_id
      | none ↦ dispute_details r found.contradiction carried.conflict_id carried.result.fact_id
    ])

abbrev pub result_row :
    Service
    → ConnectionContext
    → WriteRequest
    → String
    → Surroundings
    → ℕ
    → FactWriteResult
    → String
    → LogRow
result_row service context r digest at observation_id result detail = record {
  write_id = at.write_id;
  idempotency_key = r.idempotency_key;
  client_id = context.client_id;
  session_id = context.session_id;
  operation = r.operation;
  outcome = result.outcome;
  fact_id = some result.fact_id;
  existing_fact_id = result.existing_fact_id;
  observation_id = some observation_id;
  recorded_at = at.recorded_at;
  request_sha256 = digest;
  detail_json = detail;
}

module _ (service : Service) (at : Surroundings) (context : ConnectionContext) (r : WriteRequest)
    (candidate : Option StateCandidate) where
  abbrev pub digest : String
  digest = service.request_sha256 context.client_id r candidate

  unfoldable pub supersede_requested : ℕ → Exec Store Bool
  unfolding supersede_if_requested
  supersede_requested i =
      if is_none candidate
      then supersede_if_requested r.supersede_fact_id i at.recorded_at
      else pure false

  -- What follows the write of the fact.
  unfoldable pub conclude : Plan → Matches → Carried → ℕ → Exec Vault WriteOutcome
  unfolding on_store enqueue_embedding authorize_fact_scope attach_provenance supersede_requested
      insert_log
  conclude plan found carried observation_id = do
    enqueue_embedding service at.clock service.embedding_enqueue carried.enqueue
    on_store (authorize_fact_scope carried.result.fact_id r.scope)
    attach_provenance carried.result.fact_id observation_id r at.recorded_at
    superseded ← on_store (supersede_requested carried.result.fact_id)
    let detail =
        service.add_details carried.result.detail_json
          (details r plan.state_decision found carried superseded)
    let row = result_row service context r digest at observation_id carried.result detail
    insert_log row
    pure (outcome_from_row row false)

  -- A write that is admitted.
  unfoldable pub perform : Plan → Option ExtractedTypedFields → Query → Exec Vault WriteOutcome
  unfolding on_store record_observation match_untyped carry_out conclude
  perform plan typed query = do
    observation_id ← record_observation service context r at.recorded_at
    found ← gets (λ (v : Vault). match_untyped service at.env r candidate typed query v.store.facts)
    carried ← on_store (carry_out service context r at plan found typed observation_id)
    conclude plan found carried observation_id

  abbrev pub perform_or_refuse :
      Plan → Option PolicyDecision → Option ExtractedTypedFields → Query → Exec Vault WriteOutcome
  perform_or_refuse plan (some d) typed query = settle_factless service context r digest at d
  perform_or_refuse plan none typed query = perform plan typed query

  -- A write whose key is new.
  unfoldable pub write_new : Option ExtractedTypedFields → Query → Exec Vault WriteOutcome
  unfolding reads plan_write settle_factless perform
  write_new typed query = do
    plan ← reads (λ (v : Vault). plan_write service at.env context r candidate v.store)
    perform_or_refuse plan plan.decision typed query

  abbrev pub replay_or_write :
      Option LogRow → Option ExtractedTypedFields → Query → Exec Vault WriteOutcome
  replay_or_write (some prior) typed query =
      check (str_eq prior.request_sha256 digest) idempotency_conflict
      >> pure (outcome_from_row prior true)
  replay_or_write none typed query = write_new typed query

  -- Between BEGIN and COMMIT. The source commits at the end of each of its three ways to return, with
  -- no statement after it: a replay, a refusal, and a result.
  unfoldable pub write_body : Option ExtractedTypedFields → Query → Exec Vault WriteOutcome
  unfolding register_client register_session load_prior write_new
  write_body typed query = do
    register_client context at.recorded_at
    register_session context at.recorded_at
    prior ← gets (load_prior context.client_id r.idempotency_key)
    replay_or_write prior typed query

-- With a transaction of its own.
unfoldable pub write :
    Service
    → Surroundings
    → ConnectionContext
    → WriteRequest
    → Option StateCandidate
    → Exec Vault WriteOutcome
unfolding reads prelude prepare_near_dedup_query write_body
write service at given r candidate = do
  (context, typed) ← lift (prelude service at given r candidate)
  query ← reads (prepare_near_dedup_query service context r candidate)
  transaction (write_body service at context r candidate typed query)

-- In the transaction of the caller, with a query that was prepared before.
unfoldable pub write_managed :
    Service
    → Surroundings
    → ConnectionContext
    → WriteRequest
    → Option StateCandidate
    → Query
    → Exec Vault WriteOutcome
unfolding prelude write_body
write_managed service at given r candidate query = do
  (context, typed) ← lift (prelude service at given r candidate)
  write_body service at context r candidate typed query

pub record WriteBatchOutcome : Type 0 where
  pub outcomes : List WriteOutcome
  pub committed : Bool

-- The loop: the outcomes, and whether none of them asks for a rollback.
unfoldable pub write_each :
    Service
    → ConnectionContext
    → (WriteOutcome → Bool)
    → List (BatchItem × Query)
    → Exec Vault WriteBatchOutcome
unfolding write_managed
write_each service context rollback_if [] = pure (record { outcomes = []; committed = true })
write_each service context rollback_if ((item, query) ∷ items) = do
  outcome ← write_managed service item.at context item.request item.candidate query
  (if rollback_if outcome then pure (record { outcomes = outcome ∷ []; committed = false }) else (do
    rest ← write_each service context rollback_if items
    pure (record rest { outcomes = outcome ∷ rest.outcomes })))

-- `before_commit`, where the batch is to be committed: in its transaction.
unfoldable pub run_before_commit :
    Exec Vault (Unit {0}) → WriteBatchOutcome → Exec Vault WriteBatchOutcome
run_before_commit before_commit done =
    if done.committed then before_commit >> pure done else pure done

abbrev pub keep_batch : Vault → Result WriteBatchOutcome × Vault → Result WriteBatchOutcome × Vault
keep_batch before (raise e, after) = (raise e, before)
keep_batch before (ok done, after) = (ok done, if done.committed then after else before)

-- `BEGIN IMMEDIATE` to `commit` or `rollback`.
unfoldable pub batch_transaction : Exec Vault WriteBatchOutcome → Exec Vault WriteBatchOutcome
batch_transaction m v = keep_batch v (m v)

abbrev pub is_no_item : List BatchItem → Bool
is_no_item [] = true
is_no_item (item ∷ items) = false

unfoldable pub write_batch :
    Service
    → ConnectionContext
    → List BatchItem
    → (WriteOutcome → Bool)
    → Exec Vault (Unit {0})
    → Exec Vault WriteBatchOutcome
unfolding reads prepare_queries write_each batch_transaction run_before_commit authorize_context
write_batch service given items rollback_if before_commit = do
  check (not (is_no_item items)) value_error
  context ← lift (authorize_context service.policy service.extracting given)
  queries ← reads (prepare_queries service context items)
  batch_transaction (do
    done ← write_each service context rollback_if queries
    run_before_commit before_commit done)
