-- ===== src/EmbeddingJobs/Preserved.antt =====
-- Every operation of the outbox and of its workers keeps the invariant, returning or raising.
use holographic_plus.Base.{
  ℕ, ◌≤◌, refl, ap, String, Bool, true, Option, none, some, List, [], ◌∷◌, ◌==◌, count, any, select,
  count-append, count_of_not-any, count-update-eq, arith, str_eq_iff, Bool-cases, inl, inr, find,
  Option-cases,
}
use holographic_plus.Keeps.{Keeps, keeps_rules}
use holographic_plus.FactStore.{Fact, has_fact_id}
use holographic_plus.EmbeddingJobs.Rows.{
  Job, Embedding, Outbox, EmbeddingSpec, has_job_key, has_vector_key,
}
use holographic_plus.EmbeddingJobs.Outbox.{
  renew_job, upsert_job, enqueue_in_transaction, needs_vector, backfill_jobs, enqueue_backfill,
}
use holographic_plus.EmbeddingJobs.Processor.{
  Worker, ClaimedEmbeddingJob, bury, take_job, requeue, finish, finish_embedded, lease_job, claim,
  active_content,
}
use holographic_plus.EmbeddingJobs.Commit.{
  fail_job, put_vector, settle_inactive, upsert_vector, store_prepared, commit_prepared,
  failure_status, fail,
}
use holographic_plus.EmbeddingJobs.WellFormed.{
  IsWellFormed, IsOrderly, breaks_lease, update_where-IsWellFormed, update_jobs-Keeps,
  append-IsWellFormed,
}

upsert_job-IsWellFormed :
    {o : Outbox} (spec : EmbeddingSpec) (i : ℕ) (digest : String) (now : ℕ) (allowed : Bool)
    → IsWellFormed o
    → IsWellFormed (record o { jobs = upsert_job spec i digest now allowed o.jobs })
unfolding upsert_job breaks_lease
upsert_job-IsWellFormed {o} spec i digest now allowed w =
    elim (Bool-cases (any (has_job_key i spec.document_identity) o.jobs)) [
      | inl there ↦ rw there (
          update_where-IsWellFormed _ (renew_job spec digest now)
            (record {
              same_id = λ j. refl;
              same_fact = λ j. refl;
              same_identity = λ j. refl;
              lease_kept = λ j. refl;
            })
            w)
      | inr free ↦ rw free (append-IsWellFormed _ refl free refl w)
    ]

backfill_jobs-IsWellFormed :
    (sha256 : String → String) (spec : EmbeddingSpec) (now : ℕ) (facts : List Fact) {o : Outbox}
    → IsWellFormed o
    → IsWellFormed (record o { jobs = backfill_jobs sha256 spec now facts o.jobs })
unfolding backfill_jobs
backfill_jobs-IsWellFormed sha256 spec now [] w = w
backfill_jobs-IsWellFormed sha256 spec now (f ∷ facts) {o} w =
    backfill_jobs-IsWellFormed sha256 spec now facts
      {o = record o { jobs = upsert_job spec f.fact_id (sha256 f.content) now true o.jobs }}
      (upsert_job-IsWellFormed spec f.fact_id (sha256 f.content) now true w)

pub enqueue_backfill-Keeps :
    (sha256 : String → String) (spec : EmbeddingSpec) (facts : List Fact) (now : ℕ)
    → Keeps IsWellFormed (enqueue_backfill sha256 spec facts now)
unfolding enqueue_backfill
enqueue_backfill-Keeps sha256 spec facts now = record {
  kept = λ o w.
      backfill_jobs-IsWellFormed sha256 spec now
        (select (needs_vector sha256 spec o.embeddings) facts) w;
}

pub enqueue_in_transaction-Keeps :
    (sha256 : String → String) (spec : EmbeddingSpec) (facts : List Fact) (now i : ℕ)
    → Keeps IsWellFormed (enqueue_in_transaction sha256 spec facts now i)
unfolding enqueue_in_transaction
enqueue_in_transaction-Keeps sha256 spec facts now i = record {
  kept = λ o w. elim (Option-cases (find (has_fact_id i) facts)) [
    | inl absent ↦ rw (absent, enqueue_in_transaction) w
    | inr (f, found) ↦
        rw (found, enqueue_in_transaction)
          (upsert_job-IsWellFormed spec i (sha256 f.content) now _ w)
  ];
}

-- What the workers write.
bury-IsOrderly : (now : ℕ) → IsOrderly (bury now)
unfolding breaks_lease
bury-IsOrderly now = record {
  same_id = λ j. refl;
  same_fact = λ j. refl;
  same_identity = λ j. refl;
  lease_kept = λ j. refl;
}

take_job-IsOrderly :
    (w : Worker) (now : ℕ) (token : String) (attempts : ℕ)
    → IsOrderly (take_job w now token attempts)
unfolding breaks_lease
take_job-IsOrderly w now token attempts = record {
  same_id = λ j. refl;
  same_fact = λ j. refl;
  same_identity = λ j. refl;
  lease_kept = λ j. refl;
}

requeue-IsOrderly : (digest : String) (now : ℕ) → IsOrderly (requeue digest now)
unfolding breaks_lease
requeue-IsOrderly digest now = record {
  same_id = λ j. refl;
  same_fact = λ j. refl;
  same_identity = λ j. refl;
  lease_kept = λ j. refl;
}

finish-IsOrderly : (reason : Option String) (now : ℕ) → IsOrderly (finish reason now)
unfolding breaks_lease
finish-IsOrderly reason now = record {
  same_id = λ j. refl;
  same_fact = λ j. refl;
  same_identity = λ j. refl;
  lease_kept = λ j. refl;
}

finish_embedded-IsOrderly : (digest : String) (now : ℕ) → IsOrderly (finish_embedded digest now)
unfolding breaks_lease
finish_embedded-IsOrderly digest now = record {
  same_id = λ j. refl;
  same_fact = λ j. refl;
  same_identity = λ j. refl;
  lease_kept = λ j. refl;
}

fail_job-IsOrderly :
    (w : Worker) (job : ClaimedEmbeddingJob) (available : ℕ) (error : String) (now : ℕ)
    → IsOrderly (fail_job (failure_status w job) available error now)
unfolding breaks_lease failure_status
fail_job-IsOrderly w job available error now = record {
  same_id = λ j. refl;
  same_fact = λ j. refl;
  same_identity = λ j. refl;
  lease_kept = λ j. ground arith;
}

put_vector_unique :
    (spec : EmbeddingSpec) (fact_id : ℕ) (v : String) (es : List Embedding) (i : ℕ)
    (identity : String)
    → count (has_vector_key i identity) es ≤ 1
    → count (has_vector_key i identity) (put_vector spec fact_id v es) ≤ 1
unfolding has_vector_key count
put_vector_unique spec fact_id v es i identity h =
    elim (Bool-cases (any (has_vector_key fact_id spec.document_identity) es)) [
      | inl there ↦ rw there (
          omega (
            arith,
            h,
            count-update-eq (has_vector_key i identity)
                (has_vector_key fact_id spec.document_identity)
                (λ e. record e { embedding = v; dim = spec.dimensions }) es (λ e c. refl),
          ))
      | inr free ↦ rw free (
          ground (
            arith,
            count-append (has_vector_key i identity) es (
                record {
                  fact_id = fact_id;
                  embedding_identity = spec.document_identity;
                  dim = spec.dimensions;
                  embedding = v;
                }
                ∷ []),
            count_of_not-any (has_vector_key fact_id spec.document_identity) es free,
            str_eq_iff spec.document_identity identity,
            ap (λ (k : ℕ × String). count (has_vector_key k.0 k.1) es)
                {x = (fact_id, spec.document_identity)} {y = (i, identity)},
          ))
    ]

upsert_vector-Keeps :
    (w : Worker) (fact_id : ℕ) (v : String) → Keeps IsWellFormed (upsert_vector w fact_id v)
unfolding upsert_vector
upsert_vector-Keeps w fact_id v = record {
  kept = λ o held. elim (Bool-cases (w.dim_of v == w.spec.dimensions)) [
    | inr bad ↦ rw bad held
    | inl good ↦ rw good (record {
      ids_unique = held.ids_unique;
      keys_unique = held.keys_unique;
      leases_kept = held.leases_kept;
      vectors_unique = λ i identity.
          put_vector_unique w.spec fact_id v o.embeddings i identity
            (held.vectors_unique i identity);
    })
  ];
}

ruleset outbox_rules = (
  keeps_rules, update_jobs-Keeps, bury-IsOrderly, take_job-IsOrderly, requeue-IsOrderly,
  finish-IsOrderly, finish_embedded-IsOrderly, fail_job-IsOrderly, upsert_vector-Keeps,
)

lease_job-Keeps :
    (w : Worker) (now : ℕ) (token : String) (found : Option Job)
    → Keeps IsWellFormed (lease_job w now token found)
unfolding lease_job
lease_job-Keeps w now token none = search outbox_rules depth 8
lease_job-Keeps w now token (some j) = search outbox_rules depth 8

pub claim-Keeps : (w : Worker) (now : ℕ) (token : String) → Keeps IsWellFormed (claim w now token)
unfolding claim
claim-Keeps w now token = search (outbox_rules, lease_job-Keeps) depth 12

pub settle_inactive-Keeps :
    (w : Worker) (job : ClaimedEmbeddingJob) (facts : List Fact) (now : ℕ)
    → Keeps IsWellFormed (settle_inactive w job facts now)
unfolding settle_inactive
settle_inactive-Keeps w job facts now = elim (Option-cases (active_content facts job.fact_id)) [
  | inl inactive ↦ rw (inactive, settle_inactive) (search outbox_rules depth 12)
  | inr (content, active) ↦ rw (active, settle_inactive) (search outbox_rules depth 12)
]

store_prepared-Keeps :
    (w : Worker) (job : ClaimedEmbeddingJob) (expected v : String) (content : Option String)
    (now : ℕ)
    → Keeps IsWellFormed (store_prepared w job expected v content now)
unfolding store_prepared
store_prepared-Keeps w job expected v none now = search outbox_rules depth 12
store_prepared-Keeps w job expected v (some content) now = search outbox_rules depth 12

pub commit_prepared-Keeps :
    (w : Worker) (job : ClaimedEmbeddingJob) (expected v : String) (facts : List Fact) (now : ℕ)
    → Keeps IsWellFormed (commit_prepared w job expected v facts now)
unfolding commit_prepared
commit_prepared-Keeps w job expected v facts now =
    search (outbox_rules, store_prepared-Keeps) depth 12

pub fail-Keeps :
    (w : Worker) (job : ClaimedEmbeddingJob) (error : String) (now : ℕ)
    → Keeps IsWellFormed (fail w job error now)
unfolding fail
fail-Keeps w job error now = search outbox_rules depth 12
