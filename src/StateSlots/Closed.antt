-- ===== src/StateSlots/Closed.antt =====
-- `resolve_state_conflict` on a conflict that is closed.
use holographic_plus.Base.{
  ℕ, ◌≡◌, refl, ◌∙◌, String, true, false, Option, none, some, is_none, is_empty, if◌then◌else◌,
  arith, Result, ok, raise, Error, value_error, value_or,
}
use holographic_plus.Exec.{lift-raises, gets-eq, check-raises}
use holographic_plus.FactStore.{Conflict, Store}
use holographic_plus.Timestamps.{FromIso, parse_timestamp}
use holographic_plus.StateSlots.Keys.{required}
use holographic_plus.StateSlots.Conflicts.{Ambient, stamp, or_raise}
use holographic_plus.StateSlots.Resolve.{
  ResolveRequest, ConflictResolution, any_conflict, resolve_state_conflict,
}
use holographic_plus.StateSlots.Settled.{
  or_raise-returns, is_closed, resolve_state_conflict-settles,
}

required-raises : (x : String) (e : Error) → required x ≡ raise e → e ≡ value_error
unfolding required
required-raises x e h = ground arith

parse_timestamp-raises :
    (from_iso : FromIso) (o : Option String) (e : Error)
    → parse_timestamp from_iso o ≡ raise e
    → e ≡ value_error
unfolding parse_timestamp
parse_timestamp-raises from_iso none e h = cc
parse_timestamp-raises from_iso (some x) e h = ground arith

checked_raises :
    (x : Result (Option ℕ)) (text : String) (e : Error)
    → ((e' : Error) → x ≡ raise e' → e' ≡ value_error)
    → (elim x [ ok _ ↦ ok text | raise e' ↦ raise e' ]) ≡ raise e
    → e ≡ value_error
checked_raises (ok a) text e only h = cc h
checked_raises (raise e') text e only h = cc (only e' refl, h)

stamp-raises :
    (env : Ambient) (o : Option String) (e : Error) → stamp env o ≡ raise e → e ≡ value_error
unfolding stamp
stamp-raises env o e h =
    let text = if is_empty (value_or o "") then env.utc_now else value_or o "" in
    checked_raises (parse_timestamp env.from_iso (some text)) text e
      (parse_timestamp-raises env.from_iso (some text)) h

or_raise-raises : (o : Option Conflict) (e : Error) → or_raise o ≡ raise e → e ≡ value_error
or_raise-raises none e h = cc
or_raise-raises (some c) e h = cc

closed_is :
    (c : Conflict) {o : Option Conflict}
    → o ≡ some c
    → is_closed o ≡ true
    → is_none c.resolved_at ≡ false
closed_is c {o = none} same h = cc
closed_is c {o = some d} same h = ground arith

-- A closed conflict is not resolved again: whatever the request, it is refused and nothing is written.
pub resolve_closed :
    (env : Ambient) (r : ResolveRequest) (s : Store)
    → is_closed (any_conflict r.conflict_id s) ≡ true
    → resolve_state_conflict env r s ≡ (raise value_error, s)
unfolding resolve_state_conflict
resolve_closed env r s closed =
    lift-raises (required r.resolved_by) _ s value_error (required-raises r.resolved_by) (λ by _.
      lift-raises (required r.reason) _ s value_error (required-raises r.reason) (λ reason _.
        lift-raises (stamp env r.resolved_at) _ s value_error (stamp-raises env r.resolved_at)
          (λ at _.
            gets-eq (any_conflict r.conflict_id) _ s
            ∙ lift-raises (or_raise (any_conflict r.conflict_id s)) _ s value_error
                (or_raise-raises (any_conflict r.conflict_id s))
                (λ c found.
                  rw (closed_is c (or_raise-returns (any_conflict r.conflict_id s) found) closed)
                    (check-raises value_error _ s)))))

-- After `resolve_state_conflict` has returned, every later request for the same conflict, whoever
-- sends it, raises ValueError and changes nothing.
pub resolve_twice :
    (env : Ambient) (r : ResolveRequest) (s : Store) {res : ConflictResolution} {t : Store}
    (env' : Ambient) (r' : ResolveRequest)
    → resolve_state_conflict env r s ≡ (ok res, t)
    → r'.conflict_id ≡ r.conflict_id
    → resolve_state_conflict env' r' t ≡ (raise value_error, t)
resolve_twice env r s {res} {t} env' r' first same =
    resolve_closed env' r' t (rw same (resolve_state_conflict-settles env r s first).3)
