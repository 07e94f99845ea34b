-- ===== src/StateSlots/Frames.antt =====
-- What every statement on the tables keeps, every conflict operation keeps: each is made of the
-- statements alone.
use holographic_plus.Base.{ℕ, String, Bool, Option, List, [], ◌∷◌}
use holographic_plus.Keeps.{Keeps, Keeps-bind, keeps_rules}
use holographic_plus.FactStore.{Fact, Conflict, Resolution, Store}
use holographic_plus.StateSlots.Tables.{
  insert_conflict, update_facts, insert_member, insert_members, update_conflicts, insert_resolution,
}
use holographic_plus.StateSlots.Conflicts.{
  Ambient, write_conflict, open_state_conflict, open_untyped_conflict, add_conflict_member,
  add_untyped_conflict_member,
}
use holographic_plus.StateSlots.Resolve.{
  ResolveRequest, retire_losers, crown_winner, audit, apply_resolution, resolve_state_conflict,
}

pub record KeptByStatements (P : Store → Type 0) : Type 0 where
  pub by_update : (p : Fact → Bool) (f : Fact → Fact) → Keeps P (update_facts p f)
  pub by_conflict : (c : Conflict) → Keeps P (insert_conflict c)
  pub by_member : (conflict_id : String) (i : ℕ) → Keeps P (insert_member conflict_id i)
  pub by_close : (p : Conflict → Bool) (f : Conflict → Conflict) → Keeps P (update_conflicts p f)
  pub by_audit : (r : Resolution) → Keeps P (insert_resolution r)

module _ {P : Store → Type 0} (k : KeptByStatements P) where
  pub update_facts-kept : (p : Fact → Bool) (f : Fact → Fact) → Keeps P (update_facts p f)
  update_facts-kept = k.by_update

  pub insert_conflict-kept : (c : Conflict) → Keeps P (insert_conflict c)
  insert_conflict-kept = k.by_conflict

  pub insert_member-kept : (conflict_id : String) (i : ℕ) → Keeps P (insert_member conflict_id i)
  insert_member-kept = k.by_member

  pub update_conflicts-kept :
      (p : Conflict → Bool) (f : Conflict → Conflict) → Keeps P (update_conflicts p f)
  update_conflicts-kept = k.by_close

  pub insert_resolution-kept : (r : Resolution) → Keeps P (insert_resolution r)
  insert_resolution-kept = k.by_audit

pub ruleset statement_rules = (
  keeps_rules, update_facts-kept, insert_conflict-kept, insert_member-kept, update_conflicts-kept,
  insert_resolution-kept,
)

module _ {P : Store → Type 0} (k : KeptByStatements P) where
  insert_members-kept :
      (conflict_id : String) (ids : List ℕ) → Keeps P (insert_members conflict_id ids)
  unfolding insert_members
  insert_members-kept conflict_id [] = search statement_rules
  insert_members-kept conflict_id (i ∷ ids) =
      Keeps-bind _ _ (insert_member-kept k conflict_id i) (λ _. insert_members-kept conflict_id ids)

  write_conflict-kept :
      (uuid scope subject predicate : String) (ids : List ℕ) (at detail : String)
      (join : Fact → Fact)
      → Keeps P (write_conflict uuid scope subject predicate ids at detail join)
  unfolding write_conflict
  write_conflict-kept uuid scope subject predicate ids at detail join =
      search (statement_rules, insert_members-kept) depth 12

  pub open_state_conflict-kept :
      (env : Ambient) (subject predicate : String) (ids : List ℕ) (scope : String)
      (at : Option String) (detail : String)
      → Keeps P (open_state_conflict env subject predicate ids scope at detail)
  unfolding open_state_conflict
  open_state_conflict-kept env subject predicate ids scope at detail =
      search (statement_rules, write_conflict-kept) depth 25

  pub open_untyped_conflict-kept :
      (env : Ambient) (ids : List ℕ) (scope subject predicate : String) (at : Option String)
      (detail : String)
      → Keeps P (open_untyped_conflict env ids scope subject predicate at detail)
  unfolding open_untyped_conflict
  open_untyped_conflict-kept env ids scope subject predicate at detail =
      search (statement_rules, write_conflict-kept) depth 30

  pub add_conflict_member-kept :
      (conflict_id : String) (i : ℕ) → Keeps P (add_conflict_member conflict_id i)
  unfolding add_conflict_member
  add_conflict_member-kept conflict_id i = search statement_rules depth 15

  pub add_untyped_conflict_member-kept :
      (conflict_id : String) (i : ℕ) → Keeps P (add_untyped_conflict_member conflict_id i)
  unfolding add_untyped_conflict_member
  add_untyped_conflict_member-kept conflict_id i = search statement_rules depth 20

  retire_losers-kept :
      (conflict_id : String) (winner : ℕ) (at : String) (losers : List ℕ)
      → Keeps P (retire_losers conflict_id winner at losers)
  unfolding retire_losers
  retire_losers-kept conflict_id winner at [] = search statement_rules
  retire_losers-kept conflict_id winner at (i ∷ losers) = search statement_rules depth 10

  crown_winner-kept :
      (conflict_id : String) (winner : ℕ) → Keeps P (crown_winner conflict_id winner)
  unfolding crown_winner
  crown_winner-kept conflict_id winner = search statement_rules depth 8

  audit-kept : (r : ResolveRequest) (reason at : String) → Keeps P (audit r reason at)
  unfolding audit
  audit-kept r reason at = search statement_rules depth 15

  apply_resolution-kept :
      (r : ResolveRequest) (by reason at : String) (members : List ℕ)
      → Keeps P (apply_resolution r by reason at members)
  unfolding apply_resolution
  apply_resolution-kept r by reason at members =
      search (statement_rules, retire_losers-kept, crown_winner-kept, audit-kept) depth 15

  pub resolve_state_conflict-kept :
      (env : Ambient) (r : ResolveRequest) → Keeps P (resolve_state_conflict env r)
  unfolding resolve_state_conflict
  resolve_state_conflict-kept env r = search (statement_rules, apply_resolution-kept) depth 25
