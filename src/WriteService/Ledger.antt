-- ===== src/WriteService/Ledger.antt =====
-- The statements on clients, sessions, observations and provenance: `_register_client`,
-- `_register_session`, `_record_observation`, `_attach_provenance`.
use holographic_plus.Base.{
  ℕ, String, Bool, not, ◌&&◌, Option, none, some, List, [], ◌∷◌, ◌++◌, str_eq, is_none, is_empty,
  value_or, same_text, any, find, update_where, if◌then◌else◌, Result, ok, raise, runtime_error,
  client_identity_conflict, permission_error, session_context_conflict,
}
use holographic_plus.Exec.{Exec, gets, lift, ◌>>=◌, ◌>>◌}
use holographic_plus.FactStore.{Session}
use holographic_plus.Temporal.Words.{same_sequence}
use holographic_plus.Policy.Grants.{ConnectionContext}
use holographic_plus.Policy.Writes.{WriteRequest}
use holographic_plus.WriteService.Rows.{
  Vault, Client, Observation, Service, has_client, is_observed, is_attached, next_observation_id,
}

-- `INSERT … ON CONFLICT(client_id) DO NOTHING`
unfoldable pub insert_client : ConnectionContext → String → Exec Vault (Unit {0})
insert_client context now v = if any (has_client context.client_id) v.clients then (ok tt, v) else (
  ok tt,
  record v {
    clients =
        v.clients
        ++ record {
          client_id = context.client_id;
          surface = context.surface;
          display_name = context.display_name;
          created_at = now;
          disabled_at = none;
        }
          ∷ [];
  },
)

abbrev pub check_client : ConnectionContext → Option Client → Result (Unit {0})
check_client context none = raise runtime_error
check_client context (some c) =
    if not (str_eq c.surface context.surface)
    then raise client_identity_conflict
    else if not (is_none c.disabled_at)
    then raise permission_error
    else ok tt

unfoldable pub register_client : ConnectionContext → String → Exec Vault (Unit {0})
unfolding insert_client
register_client context now = do
  insert_client context now
  found ← gets (λ (v : Vault). find (has_client context.client_id) v.clients)
  lift (check_client context found)

unfoldable pub has_session : ConnectionContext → Session → Bool
has_session context s =
    str_eq s.client_id context.client_id && str_eq s.session_id context.session_id

-- `context.started_at or now`
abbrev pub start_of : Option String → String → String
start_of given now = if is_empty (value_or given "") then now else value_or given ""

abbrev pub new_session : ConnectionContext → String → Session
new_session context now = record {
  client_id = context.client_id;
  session_id = context.session_id;
  agent_id = context.agent_id;
  parent_agent_id = context.parent_agent_id;
  project_root = context.project_root;
  repository = context.repository;
  branch = context.branch;
  commit_sha = context.commit_sha;
  capabilities = context.capabilities;
  access_scopes = context.access_scopes;
  started_at = start_of context.started_at now;
}

abbrev pub on_sessions : (List Session → List Session) → Vault → Vault
on_sessions f v = record v { store = record v.store { sessions = f v.store.sessions } }

-- `INSERT … ON CONFLICT(client_id, session_id) DO NOTHING`, and the update of branch and commit.
unfoldable pub upsert_session : ConnectionContext → String → Exec Vault (Unit {0})
unfolding has_session
upsert_session context now v =
    let move =
      update_where (has_session context)
        (λ (s : Session). record s { branch = context.branch; commit_sha = context.commit_sha }) in
    if any (has_session context) v.store.sessions
    then (ok tt, on_sessions move v)
    else (ok tt, on_sessions (λ ss. move (ss ++ new_session context now ∷ [])) v)

-- The columns that a session keeps.
unfoldable pub is_same_context : ConnectionContext → Session → Bool
unfolding same_sequence
is_same_context context s =
    str_eq s.agent_id context.agent_id
    && same_text s.parent_agent_id context.parent_agent_id
    && same_text s.project_root context.project_root
    && same_text s.repository context.repository
    && same_sequence s.capabilities context.capabilities
    && same_sequence s.access_scopes context.access_scopes

abbrev pub check_session : ConnectionContext → Option Session → Result (Unit {0})
check_session context none = raise session_context_conflict
check_session context (some s) =
    if is_same_context context s then ok tt else raise session_context_conflict

unfoldable pub register_session : ConnectionContext → String → Exec Vault (Unit {0})
unfolding upsert_session has_session is_same_context
register_session context now = do
  upsert_session context now
  found ← gets (λ (v : Vault). find (has_session context) v.store.sessions)
  lift (check_session context found)

-- `request.observation_content or request.content`
abbrev pub observed_content : WriteRequest → String
observed_content r =
    if is_empty (value_or r.observation_content "")
    then r.content
    else value_or r.observation_content ""

abbrev pub new_observation : ConnectionContext → WriteRequest → String → String → ℕ → Observation
new_observation context r digest now id = record {
  observation_id = id;
  client_id = context.client_id;
  session_id = context.session_id;
  source_type = r.source_type;
  source_uri = r.source_uri;
  project_root = context.project_root;
  repository = context.repository;
  branch = context.branch;
  commit_sha = context.commit_sha;
  content = observed_content r;
  content_sha256 = digest;
  asserted_by = r.asserted_by;
  performed_by = r.performed_by;
  observed_at = r.observed_at;
  recorded_at = now;
  scope = r.scope;
  sensitivity = r.sensitivity;
  metadata_json = r.metadata_json;
}

unfoldable pub insert_observation :
    ConnectionContext → WriteRequest → String → String → Exec Vault (Unit {0})
unfolding is_observed next_observation_id
insert_observation context r digest now v =
    if any (is_observed context.client_id digest context.session_id r.source_type) v.observations
    then (ok tt, v)
    else (
      ok tt,
      record v {
        observations =
            v.observations
            ++ new_observation context r digest now (next_observation_id v.observations) ∷ [];
      },
    )

abbrev pub observation_id_of : Option Observation → Result ℕ
observation_id_of none = raise runtime_error
observation_id_of (some o) = ok o.observation_id

unfoldable pub record_observation :
    Service → ConnectionContext → WriteRequest → String → Exec Vault ℕ
unfolding insert_observation is_observed
record_observation service context r now = do
  insert_observation context r (service.observation_sha256 context r) now
  found ← gets (λ (v : Vault).
      find
        (is_observed context.client_id (service.observation_sha256 context r) context.session_id
          r.source_type)
        v.observations)
  lift (observation_id_of found)

-- `INSERT INTO fact_provenance … ON CONFLICT … DO NOTHING`
unfoldable pub attach_provenance : ℕ → ℕ → WriteRequest → String → Exec Vault (Unit {0})
unfolding is_attached
attach_provenance fact_id observation_id r now v =
    if any (is_attached fact_id observation_id r.relation) v.provenance then (ok tt, v) else (
      ok tt,
      record v {
        provenance =
            v.provenance
            ++ record {
              fact_id = fact_id;
              observation_id = observation_id;
              relation = r.relation;
              evidence_excerpt = r.evidence_excerpt;
              created_at = now;
            }
              ∷ [];
      },
    )
