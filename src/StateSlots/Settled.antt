-- ===== src/StateSlots/Settled.antt =====
-- What `resolve_state_conflict` achieves when it returns: the losers are retired in favour of the
-- winner, the winner is an unconflicted current fact, and the conflict is closed for good.
use holographic_plus.Base.{
  ℕ, ◌≤◌, ◌≡◌, refl, sym, ap, ◌∙◌, String, Bool, true, false, not, ◌&&◌, Option, none, some, List,
  [], ◌∷◌, ==_iff, is_none, is_some, number_is, str_eq, length, count, find, find-update, find-sat,
  update_where, count-update-ge, count-update-keep, arith, Bool-cases, inl, inr, Result, ok, raise,
  value_or,
}
use holographic_plus.Exec.{pure, >>=-returns, lift-returns, gets-returns, check-returns, check-last}
use holographic_plus.FactStore.{Fact, Conflict, Resolution, Store, is_current, has_fact_id}
use holographic_plus.StateSlots.Keys.{required}
use holographic_plus.StateSlots.Tables.{
  update_facts, update_conflicts, insert_resolution, members_of,
}
use holographic_plus.StateSlots.Conflicts.{Ambient, contains_id, stamp, or_raise}
use holographic_plus.StateSlots.Resolve.{
  ResolveRequest, ConflictResolution, any_conflict, names_resolver, losers_of, is_loser,
  valid_from_of, lose, is_winner, leave_conflict, close_conflict, retire_losers, crown_winner,
  audit, apply_resolution, resolve_state_conflict,
}
use holographic_plus.StateSlots.Opened.{update_facts-returns}

-- A member that lost: no longer believed, and linked to the winner.
unfoldable pub is_retired : ℕ → List ℕ → Fact → Bool
unfolding is_current
is_retired winner losers f =
    contains_id losers f.fact_id
    && number_is f.superseded_by winner
    && not (is_none f.expired_at)
    && not (is_current f)

-- The winner, as the unique projection holds it.
unfoldable pub is_settled : ℕ → Fact → Bool
unfolding is_current
is_settled winner f = has_fact_id winner f && is_current f && is_none f.conflict_group

retired_by_update :
    (winner : ℕ) (losers : List ℕ) (conflict_id at : String) (until : Option String) (f : Fact)
    → is_loser losers conflict_id f ≡ true
    → is_retired winner losers (lose at winner until f) ≡ true
unfolding is_loser is_retired
retired_by_update winner losers conflict_id at until f h =
    ground (arith, (==_iff winner winner).1 refl)

retire_losers-returns :
    (conflict_id : String) (winner : ℕ) (at : String) (losers : List ℕ) (s : Store) {t : Store}
    → retire_losers conflict_id winner at losers s ≡ (ok tt, t)
    → (length losers ≤ count (is_retired winner losers) t.facts) × (t.conflicts ≡ s.conflicts)
unfolding retire_losers pure
retire_losers-returns conflict_id winner at [] s h = (omega arith, cc)
retire_losers-returns conflict_id winner at (i ∷ losers) s {t} h =
    let h1 = gets-returns _ _ s h in
    let until = valid_from_of (find (has_fact_id winner) s.facts) in
    let (n, s1, updated, h2) =
      >>=-returns (update_facts (is_loser (i ∷ losers) conflict_id) _) _ s h1 in
    let (facts, rows, conflicts) = update_facts-returns _ _ s updated in
    let (all_retired, same) = check-last _ _ s1 h2 in
    let as_many = (==_iff n (length (i ∷ losers))).0 all_retired in
    let bound =
      count-update-ge (is_retired winner (i ∷ losers)) (is_loser (i ∷ losers) conflict_id)
        (lose at winner until) s.facts
        (λ f. retired_by_update winner (i ∷ losers) conflict_id at until f) in
    (rw (same, facts) (omega (arith, as_many, rows, bound)), cc (same, conflicts))

settled_by_update :
    (winner : ℕ) (conflict_id : String) (f : Fact)
    → is_winner winner conflict_id f ≡ true
    → is_settled winner (leave_conflict f) ≡ true
unfolding is_winner is_settled
settled_by_update winner conflict_id f h = ground arith

crown_winner-returns :
    (conflict_id : String) (winner : ℕ) (s : Store) {t : Store}
    → crown_winner conflict_id winner s ≡ (ok tt, t)
    → (1 ≤ count (is_settled winner) t.facts)
      × (t.facts ≡ update_where (is_winner winner conflict_id) leave_conflict s.facts)
      × (t.conflicts ≡ s.conflicts)
unfolding crown_winner
crown_winner-returns conflict_id winner s h =
    let (n, s1, updated, h2) = >>=-returns (update_facts (is_winner winner conflict_id) _) _ s h in
    let (facts, rows, conflicts) = update_facts-returns _ _ s updated in
    let (one_row, same) = check-last _ _ s1 h2 in
    let as_many = (==_iff n 1).0 one_row in
    let bound =
      count-update-ge (is_settled winner) (is_winner winner conflict_id) leave_conflict s.facts
        (λ f. settled_by_update winner conflict_id f) in
    (rw (same, facts) (omega (arith, as_many, rows, bound)), cc (same, facts), cc (same, conflicts))

insert_resolution-returns :
    (x : Resolution) (s : Store) {t : Store}
    → insert_resolution x s ≡ (ok tt, t)
    → (t.facts ≡ s.facts) × (t.conflicts ≡ s.conflicts)
unfolding insert_resolution
insert_resolution-returns x s h = ground arith

audit-returns :
    (r : ResolveRequest) (reason at : String) (s : Store) {t : Store}
    → audit r reason at s ≡ (ok tt, t)
    → (t.facts ≡ s.facts) × (t.conflicts ≡ s.conflicts)
unfolding audit pure
audit-returns r reason at s h = elim (Bool-cases (names_resolver r)) [
  | inl named ↦
      let h0 = rw named at h in
      let (client, _, h1) = lift-returns (required (value_or r.resolver_client_id "")) _ s h0 in
      let (session, _, h2) = lift-returns (required (value_or r.resolver_session_id "")) _ s h1 in
      let (agent, _, h3) = lift-returns (required (value_or r.resolver_agent_id "")) _ s h2 in
      insert_resolution-returns _ s h3
  | inr anonymous ↦ let h0 = rw anonymous at h in (cc h0, cc h0)
]

retired_stays :
    (winner : ℕ) (losers : List ℕ) (f : Fact)
    → is_retired winner losers f ≡ true
    → is_retired winner losers (leave_conflict f) ≡ true
unfolding is_retired
retired_stays winner losers f h = h

unfoldable pub is_unresolved : String → Conflict → Bool
is_unresolved conflict_id c = str_eq c.conflict_id conflict_id && is_none c.resolved_at

abbrev ids_of : Result ConflictResolution → List ℕ
ids_of (ok x) = x.superseded_fact_ids
ids_of (raise e) = []

apply_resolution-returns :
    (r : ResolveRequest) (by reason at : String) (members : List ℕ) (s : Store)
    {res : ConflictResolution} {t : Store}
    → apply_resolution r by reason at members s ≡ (ok res, t)
    → (length res.superseded_fact_ids
        ≤ count (is_retired r.resolution_fact_id res.superseded_fact_ids) t.facts)
      × (1 ≤ count (is_settled r.resolution_fact_id) t.facts)
      × (res.superseded_fact_ids ≡ losers_of r.resolution_fact_id members)
      × (t.conflicts
          ≡ update_where
              (is_unresolved r.conflict_id)
              (close_conflict at r.resolution_fact_id by reason)
              s.conflicts)
unfolding apply_resolution update_conflicts pure is_unresolved
apply_resolution-returns r by reason at members s {res} {t} h =
    let winner = r.resolution_fact_id in
    let losers = losers_of winner members in
    let (_, s1, retired, h1) = >>=-returns (retire_losers r.conflict_id winner at losers) _ s h in
    let (many, same1) = retire_losers-returns r.conflict_id winner at losers s retired in
    let (_, s2, crowned, h2) = >>=-returns (crown_winner r.conflict_id winner) _ s1 h1 in
    let (one, facts, same2) = crown_winner-returns r.conflict_id winner s1 crowned in
    let (_, s3, closed, h3) = >>=-returns (update_conflicts _ _) _ s2 h2 in
    let (_, s4, audited, last) = >>=-returns (audit r reason at) _ s3 h3 in
    let (same_facts, same3) = audit-returns r reason at s3 audited in
    let kept =
      count-update-keep (is_retired winner losers) (is_winner winner r.conflict_id) leave_conflict
        s1.facts (λ f. retired_stays winner losers f) in
    let Out = Result ConflictResolution × Store in
    let at_end : s4.facts ≡ t.facts = ap (λ (x : Out). x.1.facts) last in
    let closed_there : update_where (is_unresolved r.conflict_id)
          (close_conflict at winner by reason) s2.conflicts
        ≡ s3.conflicts =
      ap (λ (x : Result (Unit {0}) × Store). x.1.conflicts) closed in
    let kept_facts : s2.facts ≡ s3.facts =
      ap (λ (x : Result (Unit {0}) × Store). x.1.facts) closed in
    let as_crowned : t.facts ≡ s2.facts = sym at_end ∙ same_facts ∙ sym kept_facts in
    let named : res.superseded_fact_ids ≡ losers = ap (λ (x : Out). ids_of x.0) (sym last) in
    let at_close : s4.conflicts ≡ t.conflicts = ap (λ (x : Out). x.1.conflicts) last in
    let before : s2.conflicts ≡ s.conflicts = same2 ∙ same1 in
    (
      rw (named, as_crowned, facts) (omega (arith, many, kept)),
      rw as_crowned one,
      named,
      sym at_close
          ∙ same3
          ∙ sym closed_there
          ∙ ap (update_where (is_unresolved r.conflict_id) (close_conflict at winner by reason))
              before,
    )

row_of_any :
    (conflict_id : String) (s : Store) {c : Conflict}
    → any_conflict conflict_id s ≡ some c
    → str_eq c.conflict_id conflict_id ≡ true
row_of_any conflict_id s {c} h =
    find-sat (λ (d : Conflict). str_eq d.conflict_id conflict_id) s.conflicts h

-- Closing the conflict leaves a row of that id which is no longer open.
closed_row :
    (conflict_id at by reason : String) (winner : ℕ) (s t : Store) (c : Conflict)
    → any_conflict conflict_id s ≡ some c
    → is_none c.resolved_at ≡ true
    → t.conflicts
      ≡ update_where (is_unresolved conflict_id) (close_conflict at winner by reason) s.conflicts
    → any_conflict conflict_id t ≡ some (close_conflict at winner by reason c)
unfolding is_unresolved
closed_row conflict_id at by reason winner s t c there unresolved closes =
    let same_id = row_of_any conflict_id s there in
    let keeps =
      find-update (λ (d : Conflict). str_eq d.conflict_id conflict_id) (is_unresolved conflict_id)
        (close_conflict at winner by reason) s.conflicts (λ d. refl) in
    rw closes (rw keeps (rw there (rw (same_id, unresolved) refl)))

pub or_raise-returns :
    (found : Option Conflict) {c : Conflict} → or_raise found ≡ ok c → found ≡ some c
or_raise-returns none h = cc
or_raise-returns (some c) h = cc

abbrev pub is_closed : Option Conflict → Bool
is_closed none = false
is_closed (some c) = is_some c.resolved_at

-- A resolution that returns has retired, in favour of the winner, at least as many facts of
-- those it names losers as it names; the winner is a current fact in no conflict; the losers
-- it names are the other members of the conflict; and the conflict is closed.
pub resolve_state_conflict-settles :
    (env : Ambient) (r : ResolveRequest) (s : Store) {res : ConflictResolution} {t : Store}
    → resolve_state_conflict env r s ≡ (ok res, t)
    → (length res.superseded_fact_ids
        ≤ count (is_retired r.resolution_fact_id res.superseded_fact_ids) t.facts)
      × (1 ≤ count (is_settled r.resolution_fact_id) t.facts)
      × (res.superseded_fact_ids ≡ losers_of r.resolution_fact_id (members_of r.conflict_id s))
      × (is_closed (any_conflict r.conflict_id t) ≡ true)
unfolding resolve_state_conflict
resolve_state_conflict-settles env r s {res} {t} h =
    let (by, _, h1) = lift-returns (required r.resolved_by) _ s h in
    let (reason, _, h2) = lift-returns (required r.reason) _ s h1 in
    let (at, _, h3) = lift-returns (stamp env r.resolved_at) _ s h2 in
    let h4 = gets-returns _ _ s h3 in
    let (c, found, h5) = lift-returns (or_raise (any_conflict r.conflict_id s)) _ s h4 in
    let (unresolved, h6) = check-returns _ _ _ s h5 in
    let h7 = gets-returns _ _ s h6 in
    let (is_member, h8) = check-returns _ _ _ s h7 in
    let (many, one, named, closes) =
      apply_resolution-returns r by reason at (members_of r.conflict_id s) s h8 in
    let closed =
      closed_row r.conflict_id at by reason r.resolution_fact_id s t c
        (or_raise-returns (any_conflict r.conflict_id s) found) unresolved closes in
    (many, one, named, rw closed refl)
