-- ===== src/WriteService/Histories.antt =====
-- The store as a transition system: writes and batches, and whatever else happens to facts, conflicts
-- and the embedding outbox in between, in any order.
use holographic_plus.Base.{◌≡◌, refl, count, Option, List, Bool}
use holographic_plus.Exec.{Exec}
use holographic_plus.Keeps.{Keeps}
use holographic_plus.FactStore.{Store}
use holographic_plus.EmbeddingJobs.Rows.{Outbox}
use holographic_plus.Policy.Grants.{ConnectionContext}
use holographic_plus.Policy.Writes.{WriteRequest}
use holographic_plus.StateSlots.Candidate.{StateCandidate}
use holographic_plus.WriteService.Rows.{
  Vault, Service, Surroundings, WriteOutcome, BatchItem, empty_vault,
}
use holographic_plus.WriteService.Write.{write, write_batch}
use holographic_plus.WriteService.Trail.{IsTraced}
use holographic_plus.WriteService.Traced.{write-IsTraced, write_batch-IsTraced}

-- `hook` is what callers have run before a batch is committed.
module _ (service : Service) (hook : Exec Vault (Unit {0})) where
  pub data VaultStep (v : Vault) : Vault → Type 0 where
    wrote :
        (at : Surroundings) (given : ConnectionContext) (r : WriteRequest)
        (candidate : Option StateCandidate)
        → VaultStep v (write service at given r candidate v).1
    wrote_batch :
        (given : ConnectionContext) (items : List BatchItem) (rollback_if : WriteOutcome → Bool)
        → VaultStep v (write_batch service given items rollback_if hook v).1
    elsewhere : (s : Store) (o : Outbox) → VaultStep v (record v { store = s; outbox = o })

  pub data History : Vault → Type 0 where
    begin : History empty_vault
    then_step : {v w : Vault} → History v → VaultStep v w → History w

  Step-IsTraced : Keeps IsTraced hook → {v w : Vault} → VaultStep v w → IsTraced v → IsTraced w
  Step-IsTraced quiet {v} (wrote at given r candidate) h =
      (write-IsTraced service at given r candidate).kept v h
  Step-IsTraced quiet {v} (wrote_batch given items rollback_if) h =
      (write_batch-IsTraced service given items rollback_if hook quiet).kept v h
  Step-IsTraced quiet {v} (elsewhere s o) h = h

  run-IsTraced : Keeps IsTraced hook → {v : Vault} → History v → IsTraced v
  unfolding count
  run-IsTraced quiet begin = refl
  run-IsTraced quiet (then_step history step) =
      Step-IsTraced quiet step (run-IsTraced quiet history)

-- Where what callers run before the commit of a batch touches neither the log nor provenance nor
-- observations: after any sequence of writes and batches, returning or raising, and of other changes
-- to facts, conflicts and the outbox, each row of the log that names a fact names an observation of
-- its client, and the fact has provenance from that observation.
pub History-IsTraced :
    (service : Service) (hook : Exec Vault (Unit {0}))
    → ((v : Vault) → (hook v).1.log ≡ v.log)
    → ((v : Vault) → (hook v).1.provenance ≡ v.provenance)
    → ((v : Vault) → (hook v).1.observations ≡ v.observations)
    → {v : Vault} → History service hook v
    → IsTraced v
History-IsTraced service hook same_log same_provenance same_observations history =
    run-IsTraced service hook
      (record { kept = λ v h. rw (same_log v, same_provenance v, same_observations v) h }) history
