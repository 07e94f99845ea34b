-- ===== src/StateSlots/Opened.antt =====
-- What `open_state_conflict` achieves when it returns.
use mathlib.Core.Bool.{false≢true}
use holographic_plus.Base.{
  ℕ, zero, suc, ◌⊎◌, ◌≤◌, ◌≡◌, refl, ap, ◌∙◌, String, Bool, true, not, ◌&&◌, Option, List, [], ◌∷◌,
  map, count, select, update_where, count-split, select_of_none, count_mono, count-update-le_at,
  arith, ok, inl, inr,
}
use holographic_plus.Exec.{pure, >>=-returns, lift-returns, gets-returns, check-returns}
use holographic_plus.FactStore.{Fact, Conflict, Store, is_indexed}
use holographic_plus.StateSlots.Keys.{required}
use holographic_plus.StateSlots.Tables.{
  insert_conflict, update_facts, insert_member, insert_members,
}
use holographic_plus.StateSlots.Conflicts.{
  Ambient, ConflictRecord, contains_id, same_set, json_checked, stamp, new_conflict, join_conflict,
  is_among, write_conflict, open_state_conflict,
}
use holographic_plus.StateSlots.Index.{UniqueSlots}

facts-insert_conflict :
    (c : Conflict) (s : Store) {t : Store} → insert_conflict c s ≡ (ok tt, t) → t.facts ≡ s.facts
unfolding insert_conflict
facts-insert_conflict c s h = ground arith

facts-insert_member :
    (u : String) (i : ℕ) (s : Store) {t : Store}
    → insert_member u i s ≡ (ok tt, t)
    → t.facts ≡ s.facts
unfolding insert_member
facts-insert_member u i s h = ground arith

facts-insert_members :
    (u : String) (ids : List ℕ) (s : Store) {t : Store}
    → insert_members u ids s ≡ (ok tt, t)
    → t.facts ≡ s.facts
unfolding insert_members pure
facts-insert_members u [] s h = cc
facts-insert_members u (i ∷ ids) s h =
    let (_, s1, first, rest) = >>=-returns (insert_member u i) _ s h in
    facts-insert_members u ids s1 rest ∙ facts-insert_member u i s first

pub update_facts-returns :
    (p : Fact → Bool) (f : Fact → Fact) (s : Store) {n : ℕ} {t : Store}
    → update_facts p f s ≡ (ok n, t)
    → (t.facts ≡ update_where p f s.facts) × (n ≡ count p s.facts) × (t.conflicts ≡ s.conflicts)
unfolding update_facts
update_facts-returns p f s h = ground arith

write_conflict-facts :
    (u scope subject predicate : String) (ids : List ℕ) (at detail : String) (join : Fact → Fact)
    (s : Store) {r : ConflictRecord} {t : Store}
    → write_conflict u scope subject predicate ids at detail join s ≡ (ok r, t)
    → (t.facts ≡ update_where (is_among ids) join s.facts)
      × (r.scope ≡ scope)
      × (r.subject_key ≡ subject)
      × (r.predicate_key ≡ predicate)
      × (r.member_fact_ids ≡ ids)
      × (r.conflict_id ≡ u)
unfolding write_conflict pure
write_conflict-facts u scope subject predicate ids at detail join s h =
    let (_, s1, first, h1) = >>=-returns (insert_conflict _) _ s h in
    let (n, s2, second, h2) = >>=-returns (update_facts (is_among ids) join) _ s1 h1 in
    let (_, s3, third, last) = >>=-returns (insert_members u ids) _ s2 h2 in
    let same1 = facts-insert_conflict (new_conflict u scope subject predicate at detail) s first in
    let same2 = update_facts-returns (is_among ids) join s1 second in
    let same3 = facts-insert_members u ids s2 third in
    (
      cc (last, same3, same2.0, ap (update_where (is_among ids) join) same1),
      cc last,
      cc last,
      cc last,
      cc last,
      cc last,
    )

zero_or_more : (n : ℕ) → (n ≡ 0) ⊎ (1 ≤ n)
zero_or_more zero = inl refl
zero_or_more (suc n) = inr (omega arith)

-- The ids that were found are those of rows that were counted.
found_some :
    (p : Fact → Bool) (facts : List Fact) (i : ℕ) (ids : List ℕ)
    → same_set (map (λ (f : Fact). f.fact_id) (select p facts)) (i ∷ ids) ≡ true
    → 1 ≤ count p facts
unfolding same_set contains_id
found_some p facts i ids h = elim (zero_or_more (count p facts)) [
  | inr some_found ↦ some_found
  | inl nothing ↦ cc (rw (select_of_none p facts nothing) at h)
]

-- With every indexed row of the slot among them, the update empties the slot's index.
emptied :
    (scope subject predicate u : String) (ids : List ℕ) (facts : List Fact)
    → UniqueSlots facts
    → 1 ≤ count (λ f. is_among ids f && is_indexed scope subject predicate f) facts
    → count
        (is_indexed scope subject predicate)
        (update_where (is_among ids) (join_conflict u) facts)
      ≡ 0
unfolding is_indexed
emptied scope subject predicate u ids facts unique found =
    let indexed = is_indexed scope subject predicate in
    let among : Fact → Bool = is_among ids in
    omega (
      arith,
      unique scope subject predicate,
      found,
      count-split indexed among facts,
      count_mono (λ f. among f && indexed f) (λ f. indexed f && among f) facts
          (λ f h. ground arith),
      count-update-le_at indexed (λ f. indexed f && not (among f)) among (join_conflict u) facts
          (λ f h. ground arith),
    )

written_empties :
    (u scope subject predicate : String) (i : ℕ) (ids : List ℕ) (at detail : String) (s : Store)
    {r : ConflictRecord} {t : Store}
    → UniqueSlots s.facts
    → same_set
        (map
          (λ (f : Fact). f.fact_id)
          (select (λ f. is_among (i ∷ ids) f && is_indexed scope subject predicate f) s.facts))
        (i ∷ ids)
      ≡ true
    → write_conflict u scope subject predicate (i ∷ ids) at detail (join_conflict u) s ≡ (ok r, t)
    → (count (is_indexed r.scope r.subject_key r.predicate_key) t.facts ≡ 0)
      × (r.member_fact_ids ≡ i ∷ ids)
      × (t.facts ≡ update_where (is_among (i ∷ ids)) (join_conflict r.conflict_id) s.facts)
written_empties u scope subject predicate i ids at detail s unique found h =
    let (facts, in_scope, of_subject, of_predicate, members, id) =
      write_conflict-facts u scope subject predicate (i ∷ ids) at detail (join_conflict u) s h in
    let none_left =
      emptied scope subject predicate u (i ∷ ids) s.facts unique
        (found_some _ s.facts i ids found) in
    (rw (facts, in_scope, of_subject, of_predicate) none_left, members, rw id facts)

-- Where each slot has at most one unconflicted current value, opening a conflict, when it
-- returns, takes the slot out of the unique projection: the slot named in the record has no
-- unconflicted current value left, the members are the ids given, and those facts, and only
-- those, are in the new group.
pub open_state_conflict-empties :
    (env : Ambient) (subject predicate : String) (ids : List ℕ) (scope : String)
    (at : Option String) (detail : String) (s : Store) {r : ConflictRecord} {t : Store}
    → UniqueSlots s.facts
    → open_state_conflict env subject predicate ids scope at detail s ≡ (ok r, t)
    → (count (is_indexed r.scope r.subject_key r.predicate_key) t.facts ≡ 0)
      × (r.member_fact_ids ≡ ids)
      × (t.facts ≡ update_where (is_among ids) (join_conflict r.conflict_id) s.facts)
unfolding open_state_conflict
open_state_conflict-empties env subject predicate [] scope at detail s unique h =
    let (_, _, h1) = lift-returns (required subject) _ s h in
    let (_, _, h2) = lift-returns (required predicate) _ s h1 in
    let (_, _, h3) = lift-returns (required scope) _ s h2 in
    absurd (false≢true (check-returns _ _ _ s h3).0)
open_state_conflict-empties env subject predicate (i ∷ ids) scope at detail s unique h =
    let (subj, _, h1) = lift-returns (required subject) _ s h in
    let (pred, _, h2) = lift-returns (required predicate) _ s h1 in
    let (in_scope, _, h3) = lift-returns (required scope) _ s h2 in
    let (_, h4) = check-returns _ _ _ s h3 in
    let (_, h5) = check-returns _ _ _ s h4 in
    let (text, _, h6) = lift-returns (json_checked (env.json_object detail)) _ s h5 in
    let (detected, _, h7) = lift-returns (stamp env at) _ s h6 in
    let h8 = gets-returns _ _ s h7 in
    let (found, h9) = check-returns _ _ _ s h8 in
    written_empties env.uuid in_scope subj pred i ids detected text s unique found h9
