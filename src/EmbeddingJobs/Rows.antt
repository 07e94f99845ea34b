-- ===== src/EmbeddingJobs/Rows.antt =====
-- The tables `embedding_jobs` and `fact_embeddings` (enfold/provenance.py) and what identifies the
-- vectors of one model (enfold/embedding_jobs.py: EmbeddingSpec). Instants are microseconds: the
-- stamps of the source have one width and offset, so that they compare as their instants do. A
-- vector is the text of its bytes.
use holographic_plus.Base.{
  ℕ, ◌+◌, String, Bool, true, false, ◌&&◌, Option, List, [], ◌∷◌, ◌==◌, is_none, str_eq, max,
}
use holographic_plus.FactStore.{Fact}

pub data JobStatus : Type 0 where
  pending processing completed dead_letter : JobStatus

unfoldable pub is_waiting : JobStatus → Bool
is_waiting pending = true
is_waiting _ = false

unfoldable pub is_leased : JobStatus → Bool
is_leased processing = true
is_leased _ = false

unfoldable pub is_completed : JobStatus → Bool
is_completed completed = true
is_completed _ = false

unfoldable pub is_dead_letter : JobStatus → Bool
is_dead_letter dead_letter = true
is_dead_letter _ = false

pub record Job : Type 0 where
  pub job_id : ℕ
  pub fact_id : ℕ
  pub document_identity : String
  pub embedding_version : String
  pub dimensions : ℕ
  pub content_sha256 : String
  pub status : JobStatus
  pub attempts : ℕ
  pub available_at : ℕ
  pub lease_token : Option String
  pub lease_owner : Option String
  pub lease_expires_at : Option ℕ
  pub last_error : Option String
  pub created_at : ℕ
  pub updated_at : ℕ
  pub completed_at : Option ℕ

pub record Embedding : Type 0 where
  pub fact_id : ℕ
  pub embedding_identity : String
  pub dim : ℕ
  pub embedding : String

pub record Outbox : Type 0 where
  pub jobs : List Job
  pub embeddings : List Embedding

abbrev pub no_jobs : Outbox
no_jobs = record { jobs = []; embeddings = [] }

-- What a worker and the outbox are configured with.
pub record EmbeddingSpec : Type 0 where
  pub document_identity : String
  pub embedding_version : String
  pub dimensions : ℕ

abbrev pub has_job_id : ℕ → Job → Bool
has_job_id i j = j.job_id == i

-- UNIQUE(fact_id, document_identity)
unfoldable pub has_job_key : ℕ → String → Job → Bool
has_job_key fact_id identity j = j.fact_id == fact_id && str_eq j.document_identity identity

unfoldable pub is_of_spec : EmbeddingSpec → Job → Bool
is_of_spec spec j =
    str_eq j.document_identity spec.document_identity
    && str_eq j.embedding_version spec.embedding_version
    && j.dimensions == spec.dimensions

-- PRIMARY KEY(fact_id, embedding_identity)
unfoldable pub has_vector_key : ℕ → String → Embedding → Bool
has_vector_key fact_id identity e = e.fact_id == fact_id && str_eq e.embedding_identity identity

-- A vector of this fact, model and width.
unfoldable pub is_vector_of : EmbeddingSpec → ℕ → Embedding → Bool
unfolding has_vector_key
is_vector_of spec fact_id e =
    has_vector_key fact_id spec.document_identity e && e.dim == spec.dimensions

-- The next INTEGER PRIMARY KEY.
unfoldable pub next_job_id : List Job → ℕ
next_job_id [] = 1
next_job_id (j ∷ js) = max (j.job_id + 1) (next_job_id js)

-- `invalid_at IS NULL AND superseded_by IS NULL AND conflict_group IS NULL`
unfoldable pub is_embeddable : Fact → Bool
is_embeddable f = is_none f.invalid_at && is_none f.superseded_by && is_none f.conflict_group
