-- ===== src/Ensures.antt =====
-- What a method leaves where it starts from `P`: `Q` of its result where it returns, `E` where it
-- raises.
use holographic_plus.Base.{Result, ok, raise}
use holographic_plus.Exec.{Exec, continue, pure, ◌>>=◌}
use holographic_plus.Keeps.{Keeps}

abbrev pub Leaves : {S A : Type 0} → (A → S → Type 0) → (S → Type 0) → Result A × S → Type 0
Leaves Q E (ok a, s) = Q a s
Leaves Q E (raise e, s) = E s

pub record Ensures {S A : Type 0} (P : S → Type 0) (Q : A → S → Type 0) (E : S → Type 0)
    (method : Exec S A) : Type 0 where
  pub ensured : (before : S) → P before → Leaves Q E (method before)

Leaves-both :
    {S A : Type 0} (P E : S → Type 0) (x : Result A × S)
    → (P x.1 → E x.1)
    → P x.1
    → Leaves (λ a. P) E x
Leaves-both P E (ok a, s) weaken h = h
Leaves-both P E (raise e, s) weaken h = weaken h

left_kept : {S A : Type 0} (E : S → Type 0) (x : Result A × S) → Leaves (λ a. E) E x → E x.1
left_kept E (ok a, s) h = h
left_kept E (raise e, s) h = h

module _ {S A : Type 0} {E : S → Type 0} where
  pub Keeps-Ensures : (method : Exec S A) → Ensures E (λ a. E) E method → Keeps E method
  Keeps-Ensures method h = record {
    kept = λ before held. left_kept E (method before) (h.ensured before held);
  }

  pub Ensures-pure : {Q : A → S → Type 0} (a : A) → Ensures (Q a) Q E (pure a)
  unfolding pure
  Ensures-pure a = record { ensured = λ before h. h }

  pub Ensures-Keeps :
      {P : S → Type 0} (method : Exec S A)
      → ((s : S) → P s → E s)
      → Keeps P method
      → Ensures P (λ a. P) E method
  Ensures-Keeps {P} method weaken keeps = record {
    ensured = λ before h.
        Leaves-both P E (method before) (weaken (method before).1) (keeps.kept before h);
  }

left_after :
    {S A B : Type 0} (E : S → Type 0) (Q : A → S → Type 0) (R : B → S → Type 0) (x : Result A × S)
    (rest : A → Exec S B)
    → ((a : A) → Ensures (Q a) R E (rest a))
    → Leaves Q E x
    → Leaves R E (continue x rest)
left_after E Q R (ok a, s) rest h left = (h a).ensured s left
left_after E Q R (raise e, s) rest h left = left

module _ {S A B : Type 0} {P E : S → Type 0} {Q : A → S → Type 0} {R : B → S → Type 0} where
  pub Ensures-bind :
      (first : Exec S A) (rest : A → Exec S B)
      → Ensures P Q E first
      → ((a : A) → Ensures (Q a) R E (rest a))
      → Ensures P R E (first >>= rest)
  unfolding ◌>>=◌
  Ensures-bind first rest starts h = record {
    ensured = λ before held. left_after E Q R (first before) rest h (starts.ensured before held);
  }
