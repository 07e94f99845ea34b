-- ===== src/WriteService/Rows.antt =====
-- What a write reads and changes: the tables of the ledger (enfold/provenance.py: the CREATE TABLE
-- statements) beside those of the facts and of the embedding outbox; what it returns
-- (`WriteOutcome`); and what the service is built with.
use holographic_plus.Base.{
  ℕ, ◌+◌, String, Bool, ◌&&◌, Option, List, [], ◌∷◌, max, Result, str_eq, ◌==◌,
}
use holographic_plus.FactStore.{Fact, Store}
use holographic_plus.FactStore
use holographic_plus.EmbeddingJobs.Rows.{Outbox, EmbeddingSpec, no_jobs}
use holographic_plus.Policy.Grants.{ConnectionContext, MemoryPolicy}
use holographic_plus.Policy.Writes.{WriteRequest, Screen}
use holographic_plus.StateSlots.Candidate.{StateCandidate}
use holographic_plus.StateSlots.Conflicts.{Ambient}

pub record Client : Type 0 where
  pub client_id : String
  pub surface : String
  pub display_name : Option String
  pub created_at : String
  pub disabled_at : Option String

pub record Observation : Type 0 where
  pub observation_id : ℕ
  pub client_id : String
  pub session_id : String
  pub source_type : String
  pub source_uri : Option String
  pub project_root : Option String
  pub repository : Option String
  pub branch : Option String
  pub commit_sha : Option String
  pub content : String
  pub content_sha256 : String
  pub asserted_by : Option String
  pub performed_by : Option String
  pub observed_at : Option String
  pub recorded_at : String
  pub scope : String
  pub sensitivity : String
  pub metadata_json : String

-- A row of `fact_provenance`.
pub record Provenance : Type 0 where
  pub fact_id : ℕ
  pub observation_id : ℕ
  pub relation : String
  pub evidence_excerpt : Option String
  pub created_at : String

-- A row of `memory_write_log`.
pub record LogRow : Type 0 where
  pub write_id : String
  pub idempotency_key : String
  pub client_id : String
  pub session_id : String
  pub operation : String
  pub outcome : String
  pub fact_id : Option ℕ
  pub existing_fact_id : Option ℕ
  pub observation_id : Option ℕ
  pub recorded_at : String
  pub request_sha256 : String
  pub detail_json : String

pub record Vault : Type 0 where
  pub store : Store
  pub outbox : Outbox
  pub clients : List Client
  pub observations : List Observation
  pub provenance : List Provenance
  pub log : List LogRow

abbrev pub empty_vault : Vault
empty_vault = record {
  store = FactStore.empty;
  outbox = no_jobs;
  clients = [];
  observations = [];
  provenance = [];
  log = [];
}

pub record WriteOutcome : Type 0 where
  pub write_id : String
  pub outcome : String
  pub fact_id : Option ℕ
  pub existing_fact_id : Option ℕ
  pub observation_id : Option ℕ
  pub replayed : Bool
  pub detail_json : String

-- What the writer of facts returns, and what stands for it further on. That identifiers are positive
-- and the detail a JSON object is not checked here.
pub record FactWriteResult : Type 0 where
  pub fact_id : ℕ
  pub outcome : String
  pub existing_fact_id : Option ℕ
  pub detail_json : String

-- The cosine is the text that stands for it in the detail of a write.
pub record NearDuplicateCandidate : Type 0 where
  pub fact_id : ℕ
  pub trust_score : ℕ
  pub created_at : String
  pub cosine : String

-- What `json.loads` gives of `extraction_typed` in the metadata of a request: nothing; something that
-- is not an object of the seven keys with values of their types; or the values. A confidence is a
-- number of 2^-1074; one below 0 is malformed.
pub record TypedMetadata : Type 0 where
  pub kind : String
  pub confidence : ℕ
  pub subject_key : String
  pub predicate_key : String
  pub object_value : Option String
  pub valid_from : Option String

pub data Decoded : Type 0 where
  absent malformed : Decoded
  metadata : TypedMetadata → Decoded

-- A value that a write adds to the detail of its result.
pub data DetailValue : Type 0 where
  of_text : String → DetailValue
  of_id : Option ℕ → DetailValue
  of_ids : List ℕ → DetailValue
  of_slot : String → String → String → DetailValue
  of_near : ℕ → String → ℕ → DetailValue

-- An embedding is the text of its bytes.
abbrev pub Query : Type 0
Query = Option String

-- `MemoryWriteService.__init__` and `NearDedupConfig`, with what the methods take from elsewhere: the
-- writer of facts, the search for near duplicates, the embedder of queries, hashes and encoders. The
-- search gives nothing where it raises an exception that its caller catches, and so does the
-- embedder.
pub record Service : Type 0 where
  pub policy : MemoryPolicy
  pub extracting : Bool
  pub shape_found : String → Bool
  pub screens : List Screen
  pub lower : String → String
  pub fact_writer : WriteRequest → ℕ → List Fact → Result FactWriteResult × List Fact
  pub sha256 : String → String
  pub embedding_enqueue : Option EmbeddingSpec
  pub near_dedup_enabled : Bool
  pub embedding_identity : Option String
  pub query_embedder : Option (String → Query)
  pub near_search : WriteRequest → String → List Fact → List NearDuplicateCandidate
  pub request_sha256 : String → WriteRequest → Option StateCandidate → String
  pub observation_sha256 : ConnectionContext → WriteRequest → String
  pub decode_typed : String → Decoded
  pub reason_json : String → String
  pub add_details : String → List (String × DetailValue) → String

-- The surroundings of one write: `clock` for the embedding job; the identifier of the log row, besides
-- that of a new conflict.
pub record Surroundings : Type 0 where
  pub env : Ambient
  pub recorded_at : String
  pub clock : ℕ
  pub write_id : String

-- One write of a batch, with the surroundings it will have.
pub record BatchItem : Type 0 where
  pub at : Surroundings
  pub request : WriteRequest
  pub candidate : Option StateCandidate

abbrev pub has_client : String → Client → Bool
has_client client_id c = str_eq c.client_id client_id

-- UNIQUE (client_id, content_sha256, session_id, source_type)
unfoldable pub is_observed : String → String → String → String → Observation → Bool
is_observed client_id digest session_id source_type o =
    str_eq o.client_id client_id
    && str_eq o.content_sha256 digest
    && str_eq o.session_id session_id
    && str_eq o.source_type source_type

-- PRIMARY KEY (fact_id, observation_id, relation)
unfoldable pub is_attached : ℕ → ℕ → String → Provenance → Bool
is_attached fact_id observation_id relation p =
    p.fact_id == fact_id && p.observation_id == observation_id && str_eq p.relation relation

-- UNIQUE (client_id, idempotency_key)
unfoldable pub is_logged : String → String → LogRow → Bool
is_logged client_id key r = str_eq r.client_id client_id && str_eq r.idempotency_key key

unfoldable pub next_observation_id : List Observation → ℕ
next_observation_id [] = 1
next_observation_id (o ∷ os) = max (o.observation_id + 1) (next_observation_id os)
