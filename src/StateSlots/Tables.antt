-- ===== src/StateSlots/Tables.antt =====
-- The statements that the conflict operations execute, with the constraints that the database
-- checks: primary keys, the partial unique index, and the reference to a session.
use holographic_plus.Base.{
  leb, if◌then◌else◌, ℕ, String, Bool, not, ◌&&◌, ◌||◌, List, [], ◌∷◌, ◌++◌, str_eq, ◌==◌, any,
  count, select, update_where, map, if◌then◌else◌, ok, raise, integrity_error,
}
use holographic_plus.Exec.{Exec, pure, ◌>>◌}
use holographic_plus.FactStore.{Fact, Conflict, Member, Resolution, Session, Store, index_holds}

-- `INSERT INTO fact_conflicts`
unfoldable pub insert_conflict : Conflict → Exec Store (Unit {0})
insert_conflict c store =
    if any (λ (d : Conflict). str_eq d.conflict_id c.conflict_id) store.conflicts
    then (raise integrity_error, store)
    else (ok tt, record store { conflicts = store.conflicts ++ c ∷ [] })

-- `UPDATE facts SET f WHERE p`, with its row count; refused if two rows would share an index entry.
unfoldable pub update_facts : (Fact → Bool) → (Fact → Fact) → Exec Store ℕ
update_facts p f store =
    if index_holds (update_where p f store.facts)
    then (ok (count p store.facts), record store { facts = update_where p f store.facts })
    else (raise integrity_error, store)

unfoldable pub is_member : String → ℕ → Member → Bool
is_member conflict_id fact_id m = str_eq m.conflict_id conflict_id && m.fact_id == fact_id

-- `INSERT INTO fact_conflict_members`
unfoldable pub insert_member : String → ℕ → Exec Store (Unit {0})
unfolding is_member
insert_member conflict_id fact_id store =
    if any (is_member conflict_id fact_id) store.members then (raise integrity_error, store) else (
      ok tt,
      record store {
        members = store.members ++ record { conflict_id = conflict_id; fact_id = fact_id } ∷ [];
      },
    )

-- The same through `executemany`.
unfoldable pub insert_members : String → List ℕ → Exec Store (Unit {0})
unfolding insert_member
insert_members conflict_id [] = pure tt
insert_members conflict_id (i ∷ ids) = insert_member conflict_id i >> insert_members conflict_id ids

-- `UPDATE fact_conflicts SET … WHERE conflict_id = ? AND resolved_at IS NULL`
unfoldable pub update_conflicts : (Conflict → Bool) → (Conflict → Conflict) → Exec Store (Unit {0})
update_conflicts p f store = (ok tt, record store { conflicts = update_where p f store.conflicts })

-- The key is taken, or the session that the row refers to is not there.
unfoldable pub refuses_resolution : Resolution → Store → Bool
refuses_resolution r store =
    any (λ (q : Resolution). str_eq q.conflict_id r.conflict_id) store.resolutions
    || not (
        any
          (λ (s : Session).
            str_eq s.client_id r.resolver_client_id && str_eq s.session_id r.resolver_session_id)
          store.sessions)

-- `INSERT INTO fact_conflict_resolutions`
unfoldable pub insert_resolution : Resolution → Exec Store (Unit {0})
insert_resolution r store =
    if refuses_resolution r store
    then (raise integrity_error, store)
    else (ok tt, record store { resolutions = store.resolutions ++ r ∷ [] })

-- `ORDER BY`
unfoldable insert_in_order : ℕ → List ℕ → List ℕ
insert_in_order i [] = i ∷ []
insert_in_order i (j ∷ js) =
    let rest = insert_in_order i js in if leb i j then i ∷ j ∷ js else j ∷ rest

unfoldable pub in_order : List ℕ → List ℕ
unfolding insert_in_order
in_order [] = []
in_order (i ∷ is) = insert_in_order i (in_order is)

-- `SELECT fact_id FROM fact_conflict_members WHERE conflict_id = ? ORDER BY fact_id`
unfoldable pub members_of : String → Store → List ℕ
unfolding in_order
members_of conflict_id store = in_order (
    map (λ (m : Member). m.fact_id)
      (select (λ (m : Member). str_eq m.conflict_id conflict_id) store.members))
