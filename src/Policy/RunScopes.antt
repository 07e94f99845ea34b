-- ===== src/Policy/RunScopes.antt =====
-- Scopes of runs.
use holographic_plus.Base.{◌≡◌, String, true, List, strip, take_chars, arith, Bool-cases, inl, inr}
use holographic_plus.Policy.Scopes.{
  is_token, is_run_scope, is_scope, is_one_of, behind_run, run_scope_for_session, scope_authorized,
}

run_of_token : (s : String) → is_token s ≡ true → is_run_scope (behind_run s) ≡ true
unfolding is_run_scope
run_of_token s h = h

run_scope_for_session-run :
    (sha256 : String → String) (session_id : String)
    → ((s : String) → is_token (take_chars 24 (sha256 s)) ≡ true)
    → is_run_scope (run_scope_for_session sha256 session_id) ≡ true
unfolding run_scope_for_session
run_scope_for_session-run sha256 session_id digest =
    elim (Bool-cases (is_run_scope (behind_run (strip session_id)))) [
      | inl plain ↦ rw plain plain
      | inr exotic ↦
          rw exotic
            (run_of_token (take_chars 24 (sha256 (strip session_id))) (digest (strip session_id)))
    ]

-- Every session, however its id is spelt, gets a valid run scope, where the first 24 characters of
-- a digest are letters and digits. A client that is granted `private` may use that scope.
pub run_scope_for_session-authorized :
    (sha256 : String → String) (session_id : String) (access_scopes : List String)
    → ((s : String) → is_token (take_chars 24 (sha256 s)) ≡ true)
    → is_one_of access_scopes "private" ≡ true
    → (is_scope (run_scope_for_session sha256 session_id) ≡ true)
      × (scope_authorized (run_scope_for_session sha256 session_id) access_scopes ≡ true)
unfolding is_scope scope_authorized
run_scope_for_session-authorized sha256 session_id access_scopes digest private =
    let valid = run_scope_for_session-run sha256 session_id digest in
    (ground (arith, valid), ground (arith, valid, private))
