-- ===== src/Keeps.antt =====
-- Invariants of methods: kept whether the method returns or raises. One rule for each way to build
-- a method.
use holographic_plus.Base.{Bool, true, false, Error, Result, ok, raise, if◌then◌else◌}
use holographic_plus.Exec.{
  Exec, pure, lift, gets, check, continue, transaction, kept_or_rolled_back, ◌>>=◌,
}

pub record Keeps {S A : Type 0} (P : S → Type 0) (method : Exec S A) : Type 0 where
  pub kept : (before : S) → P before → P (method before).1

module _ {S A B : Type 0} {P : S → Type 0} where
  after_first :
      (outcome : Result A × S) (rest : A → Exec S B)
      → ((a : A) → Keeps P (rest a))
      → P outcome.1
      → P (continue outcome rest).1
  after_first (raise e, now) rest keeps held = held
  after_first (ok a, now) rest keeps held = (keeps a).kept now held

  pub Keeps-bind :
      (first : Exec S A) (rest : A → Exec S B)
      → Keeps P first
      → ((a : A) → Keeps P (rest a))
      → Keeps P (first >>= rest)
  unfolding ◌>>=◌
  Keeps-bind first rest starts keeps = record {
    kept = λ before held. after_first (first before) rest keeps (starts.kept before held);
  }

-- The methods that change nothing.
module _ {S : Type 0} {P : S → Type 0} where
  pub Keeps-check : (test : Bool) (e : Error) → Keeps P (check test e)
  unfolding check
  Keeps-check false e = record { kept = λ before held. held }
  Keeps-check true e = record { kept = λ before held. held }

  pub Keeps-gets : {A : Type 0} (read : S → A) → Keeps P (gets read)
  unfolding gets
  Keeps-gets read = record { kept = λ before held. held }

  pub Keeps-lift : {A : Type 0} (given : Result A) → Keeps P (lift given)
  unfolding lift
  Keeps-lift given = record { kept = λ before held. held }

  pub Keeps-pure : {A : Type 0} (value : A) → Keeps P (pure value)
  unfolding pure
  Keeps-pure value = record { kept = λ before held. held }

  pub Keeps-if :
      {A : Type 0} (test : Bool) (then_part else_part : Exec S A)
      → Keeps P then_part
      → Keeps P else_part
      → Keeps P (if test then then_part else else_part)
  Keeps-if false then_part else_part keeps_then keeps_else = keeps_else
  Keeps-if true then_part else_part keeps_then keeps_else = keeps_then

module _ {S A : Type 0} (P : S → Type 0) where
  pub kept_or_rolled_back-kept :
      (before : S) (x : Result A × S) → P before → P x.1 → P (kept_or_rolled_back before x).1
  kept_or_rolled_back-kept before (ok a, after) held now = now
  kept_or_rolled_back-kept before (raise e, after) held now = held

module _ {S A : Type 0} {P : S → Type 0} where
  pub Keeps-transaction : (method : Exec S A) → Keeps P method → Keeps P (transaction method)
  unfolding transaction
  Keeps-transaction method keeps = record {
    kept = λ before held.
        kept_or_rolled_back-kept P before (method before) held (keeps.kept before held);
  }

pub ruleset keeps_rules =
    (Keeps-check, Keeps-gets, Keeps-bind, Keeps-lift, Keeps-pure, Keeps-if, Keeps-transaction)
