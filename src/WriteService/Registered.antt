-- ===== src/WriteService/Registered.antt =====
-- What a registration establishes: that the next one, in the same context, changes nothing.
use holographic_plus.Base.{
  ◌≡◌, refl, ap, String, true, Option, none, some, List, [], ◌∷◌, ◌++◌, any, find, update_where,
  Bool-cases, inl, inr, Result, ok, raise, any_of_find, update-update,
}
use holographic_plus.Exec.{◌>>=◌, >>=-returns, gets-returns, lift}
use holographic_plus.FactStore.{Session}
use holographic_plus.Policy.Grants.{ConnectionContext}
use holographic_plus.WriteService.Rows.{Vault, Client, has_client}
use holographic_plus.WriteService.Ledger.{
  check_client, insert_client, register_client, has_session, new_session, check_session,
  upsert_session, register_session,
}

abbrev pub moved : ConnectionContext → Session → Session
moved context s = record s { branch = context.branch; commit_sha = context.commit_sha }

pub record IsRegistered (context : ConnectionContext) (clients : List Client)
    (sessions : List Session) : Type 0 where
  pub client : Client
  pub client_there : find (has_client context.client_id) clients ≡ some client
  pub client_fits : check_client context (some client) ≡ ok tt
  pub session_there : any (has_session context) sessions ≡ true
  pub session_settled : update_where (has_session context) (moved context) sessions ≡ sessions
  pub session_fits : check_session context (find (has_session context) sessions) ≡ ok tt

pub register_client_again :
    {context : ConnectionContext} (v : Vault) (now : String)
    → IsRegistered context v.clients v.store.sessions
    → register_client context now v ≡ (ok tt, v)
unfolding register_client insert_client ◌>>=◌
register_client_again {context} v now h =
    rw (any_of_find (has_client context.client_id) v.clients h.client_there)
      (rw h.client_there (rw h.client_fits refl))

pub register_session_again :
    {context : ConnectionContext} (v : Vault) (now : String)
    → IsRegistered context v.clients v.store.sessions
    → register_session context now v ≡ (ok tt, v)
unfolding register_session upsert_session ◌>>=◌
register_session_again {context} v now h =
    rw h.session_there (rw h.session_settled (rw h.session_fits refl))

lift-inv :
    {S : Type 0} (given : Result (Unit {0})) (s : S) {t : S}
    → lift given s ≡ (ok tt, t)
    → (given ≡ ok tt) × (t ≡ s)
unfolding lift
lift-inv (ok tt) s h = (refl, cc)
lift-inv (raise e) s h = cc

client_checked :
    (context : ConnectionContext) (found : Option Client)
    → check_client context found ≡ ok tt
    → (c : Client) × (found ≡ some c) × (check_client context (some c) ≡ ok tt)
client_checked context none h = cc
client_checked context (some c) h = (c, refl, h)

session_checked :
    (context : ConnectionContext) (found : Option Session)
    → check_session context found ≡ ok tt
    → (s : Session) × (found ≡ some s)
session_checked context none h = cc
session_checked context (some s) h = (s, refl)

register_client_lem :
    (context : ConnectionContext) (now : String) (v : Vault) {u : Unit {0}} {v' : Vault}
    → register_client context now v ≡ (ok u, v')
    → (c : Client) × (find (has_client context.client_id) v'.clients ≡ some c)
      × (check_client context (some c) ≡ ok tt)
unfolding register_client
register_client_lem context now v {u} {v'} h =
    let (a, w, inserted, rest) = >>=-returns _ _ v h in
    let (fits, same) = lift-inv _ w (gets-returns _ _ w rest) in
    rw same (client_checked context (find (has_client context.client_id) w.clients) fits)

settled_once :
    (context : ConnectionContext) (sessions : List Session)
    → update_where
        (has_session context)
        (moved context)
        (update_where (has_session context) (moved context) sessions)
      ≡ update_where (has_session context) (moved context) sessions
unfolding has_session
settled_once context sessions =
    update-update (has_session context) (moved context) (moved context) sessions (λ s h. h)
      (λ s. refl)

upsert_session_lem :
    (context : ConnectionContext) (now : String) (v : Vault) {u : Unit {0}} {w : Vault}
    → upsert_session context now v ≡ (ok u, w)
    → (w.clients ≡ v.clients)
      × (update_where (has_session context) (moved context) w.store.sessions ≡ w.store.sessions)
unfolding upsert_session
upsert_session_lem context now v {u} {w} h =
    elim (Bool-cases (any (has_session context) v.store.sessions)) [
      | inl there ↦
          let e = rw there at h in
          let state = ap (λ (x : Result (Unit {0}) × Vault). x.1) e in
          rw (← state) (refl, settled_once context v.store.sessions)
      | inr free ↦
          let e = rw free at h in
          let state = ap (λ (x : Result (Unit {0}) × Vault). x.1) e in
          rw (← state)
            (refl, settled_once context (v.store.sessions ++ new_session context now ∷ []))
    ]

-- Both registrations returned: the context is registered in the state that they leave.
pub register-IsRegistered :
    (context : ConnectionContext) (now : String) (v : Vault) {a b : Unit {0}} {v' v'' : Vault}
    → register_client context now v ≡ (ok a, v')
    → register_session context now v' ≡ (ok b, v'')
    → IsRegistered context v''.clients v''.store.sessions
unfolding register_session
register-IsRegistered context now v {a} {b} {v'} {v''} first second =
    let (c, there, fits) = register_client_lem context now v first in
    let (x, w, upserted, rest) = >>=-returns _ _ v' second in
    let (session_fits, same) = lift-inv _ w (gets-returns _ _ w rest) in
    let (clients, settled) = upsert_session_lem context now v' upserted in
    let (s, found) =
      session_checked context (find (has_session context) w.store.sessions) session_fits in
    rw same (record {
      client = c;
      client_there = rw clients there;
      client_fits = fits;
      session_there = any_of_find (has_session context) w.store.sessions found;
      session_settled = settled;
      session_fits = session_fits;
    })
