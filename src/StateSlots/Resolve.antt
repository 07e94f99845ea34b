-- ===== src/StateSlots/Resolve.antt =====
-- `resolve_state_conflict`.
use holographic_plus.Base.{
  ℕ, String, Bool, not, ◌&&◌, ◌||◌, Option, none, some, List, [], ◌∷◌, is_none, is_some, value_or,
  text_is, str_eq, ◌==◌, find, select, length, if◌then◌else◌, value_error, invariant_error, select,
}
use holographic_plus.Exec.{Exec, pure, lift, gets, check, ◌>>=◌, ◌>>◌}
use holographic_plus.FactStore.{Fact, Conflict, Store, is_current, has_fact_id}
use holographic_plus.StateSlots.Keys.{required}
use holographic_plus.StateSlots.Tables.{
  update_facts, update_conflicts, insert_resolution, members_of,
}
use holographic_plus.StateSlots.Conflicts.{Ambient, contains_id, stamp, or_raise}

pub record ResolveRequest : Type 0 where
  pub conflict_id : String
  pub resolution_fact_id : ℕ
  pub resolved_by : String
  pub reason : String
  pub resolved_at : Option String
  pub resolver_client_id : Option String
  pub resolver_session_id : Option String
  pub resolver_agent_id : Option String

pub record ConflictResolution : Type 0 where
  pub conflict_id : String
  pub resolution_fact_id : ℕ
  pub superseded_fact_ids : List ℕ
  pub resolved_by : String
  pub reason : String
  pub resolved_at : String

abbrev pub any_conflict : String → Store → Option Conflict
any_conflict conflict_id store =
    find (λ (c : Conflict). str_eq c.conflict_id conflict_id) store.conflicts

-- `tuple(fact_id for fact_id in members if fact_id != resolution_fact_id)`
unfoldable pub losers_of : ℕ → List ℕ → List ℕ
losers_of winner members = select (λ i. not (i == winner)) members

-- `WHERE fact_id IN (losers) AND conflict_group = ? AND invalid_at IS NULL`
unfoldable pub is_loser : List ℕ → String → Fact → Bool
is_loser losers conflict_id f =
    contains_id losers f.fact_id && text_is f.conflict_group conflict_id && is_none f.invalid_at

-- `SELECT valid_from FROM facts WHERE fact_id = ?`
abbrev pub valid_from_of : Option Fact → Option String
valid_from_of none = none
valid_from_of (some f) = f.valid_from

abbrev pub lose : String → ℕ → Option String → Fact → Fact
lose at winner until f = record f {
  invalid_at = some at;
  expired_at = some at;
  superseded_by = some winner;
  valid_to = until;
}

-- `WHERE fact_id = ? AND conflict_group = ? AND invalid_at IS NULL AND superseded_by IS NULL`
unfoldable pub is_winner : ℕ → String → Fact → Bool
unfolding is_current
is_winner winner conflict_id f =
    has_fact_id winner f && text_is f.conflict_group conflict_id && is_current f

abbrev pub leave_conflict : Fact → Fact
leave_conflict f = record f { conflict_group = none }

abbrev pub close_conflict : String → ℕ → String → String → Conflict → Conflict
close_conflict at winner by reason c = record c {
  resolved_at = some at;
  resolution_fact_id = some winner;
  resolved_by = some by;
  resolution_reason = some reason;
}

-- The losing members, all of which must still be current.
unfoldable pub retire_losers : String → ℕ → String → List ℕ → Exec Store (Unit {0})
retire_losers conflict_id winner at [] = pure tt
retire_losers conflict_id winner at (i ∷ losers) = do
  until ← gets (λ (s : Store). valid_from_of (find (has_fact_id winner) s.facts))
  changed ← update_facts (is_loser (i ∷ losers) conflict_id) (lose at winner until)
  check (changed == length (i ∷ losers)) invariant_error

unfoldable pub crown_winner : String → ℕ → Exec Store (Unit {0})
unfolding is_winner
crown_winner conflict_id winner = do
  changed ← update_facts (is_winner winner conflict_id) leave_conflict
  check (changed == 1) invariant_error

abbrev pub names_resolver : ResolveRequest → Bool
names_resolver r =
    is_some r.resolver_client_id || is_some r.resolver_session_id || is_some r.resolver_agent_id

-- The audit row, written when any part of the resolver's identity is given.
unfoldable pub audit : ResolveRequest → String → String → Exec Store (Unit {0})
audit r reason at =
    if names_resolver r
    then (do
      client ← lift (required (value_or r.resolver_client_id ""))
      session ← lift (required (value_or r.resolver_session_id ""))
      agent ← lift (required (value_or r.resolver_agent_id ""))
      insert_resolution (record {
        conflict_id = r.conflict_id;
        resolution_fact_id = r.resolution_fact_id;
        resolver_client_id = client;
        resolver_session_id = session;
        resolver_agent_id = agent;
        reason = reason;
        resolved_at = at;
      }))
    else pure tt

-- Everything that is written, once the request is accepted.
unfoldable pub apply_resolution :
    ResolveRequest → String → String → String → List ℕ → Exec Store ConflictResolution
unfolding retire_losers crown_winner audit losers_of
apply_resolution r by reason at members = do
  retire_losers r.conflict_id r.resolution_fact_id at (losers_of r.resolution_fact_id members)
  crown_winner r.conflict_id r.resolution_fact_id
  update_conflicts (λ (c : Conflict). str_eq c.conflict_id r.conflict_id && is_none c.resolved_at)
      (close_conflict at r.resolution_fact_id by reason)
  audit r reason at
  pure (record {
    conflict_id = r.conflict_id;
    resolution_fact_id = r.resolution_fact_id;
    superseded_fact_ids = losers_of r.resolution_fact_id members;
    resolved_by = by;
    reason = reason;
    resolved_at = at;
  })

unfoldable pub resolve_state_conflict : Ambient → ResolveRequest → Exec Store ConflictResolution
unfolding stamp apply_resolution
resolve_state_conflict env r = do
  by ← lift (required r.resolved_by)
  reason ← lift (required r.reason)
  at ← lift (stamp env r.resolved_at)
  found ← gets (any_conflict r.conflict_id)
  c ← lift (or_raise found)
  check (is_none c.resolved_at) value_error
  members ← gets (members_of r.conflict_id)
  check (contains_id members r.resolution_fact_id) value_error
  apply_resolution r by reason at members
