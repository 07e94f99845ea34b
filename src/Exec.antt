-- ===== src/Exec.antt =====
-- Methods that change the store and may raise: what was written before a raise stays written, and
-- the caller's transaction decides whether it is kept.
use holographic_plus.Base.{◌≡◌, refl, ap, Bool, true, false, Error, Result, ok, raise}

abbrev pub Exec {ℓ} : Type ℓ → Type ℓ → Type ℓ
Exec S A = S → Result A × S

module _ {ℓ} {S A : Type ℓ} where
  unfoldable pub pure : A → Exec S A
  pure a s = (ok a, s)

  -- A computation that may raise and changes nothing.
  unfoldable pub lift : Result A → Exec S A
  lift r s = (r, s)

  unfoldable pub gets : (S → A) → Exec S A
  gets f s = (ok (f s), s)

module _ {S : Type 0} where
  unfoldable pub check : Bool → Error → Exec S (Unit {0})
  check true e s = (ok tt, s)
  check false e s = (raise e, s)

module _ {S A B : Type 0} where
  abbrev pub continue : Result A × S → (A → Exec S B) → Result B × S
  continue (ok a, s) f = f a s
  continue (raise e, s) f = (raise e, s)

  infixl 5 ◌>>=◌ ◌>>◌
  -- Opening this opens `pure`, `lift`, `gets` and `check` too.
  unfoldable pub ◌>>=◌ : Exec S A → (A → Exec S B) → Exec S B
  unfolding pure lift gets check
  ◌>>=◌ m f s = continue (m s) f

  abbrev pub ◌>>◌ : Exec S A → Exec S B → Exec S B
  m >> k = m >>= λ _. k

  continue-ok :
      (x : Result A × S) (f : A → Exec S B) {b : B} {s' : S}
      → continue x f ≡ (ok b, s')
      → (a : A) × (t : S) × (x ≡ (ok a, t)) × (f a t ≡ (ok b, s'))
  continue-ok (ok a, t) f h = (a, t, refl, h)
  continue-ok (raise e, t) f h = cc

  -- A method that returned had every part of it return.
  pub >>=-returns :
      (m : Exec S A) (f : A → Exec S B) (s : S) {b : B} {s' : S}
      → (m >>= f) s ≡ (ok b, s')
      → (a : A) × (t : S) × (m s ≡ (ok a, t)) × (f a t ≡ (ok b, s'))
  unfolding ◌>>=◌
  >>=-returns m f s h = continue-ok (m s) f h

module _ {S A B : Type 0} where
  -- A part that changes nothing.
  pub lift-returns :
      (r : Result A) (f : A → Exec S B) (s : S) {b : B} {s' : S}
      → (lift r >>= f) s ≡ (ok b, s')
      → (a : A) × (r ≡ ok a) × (f a s ≡ (ok b, s'))
  unfolding ◌>>=◌
  lift-returns (ok a) f s h = (a, refl, h)
  lift-returns (raise e) f s h = cc

  pub gets-returns :
      (g : S → A) (f : A → Exec S B) (s : S) {b : B} {s' : S}
      → (gets g >>= f) s ≡ (ok b, s')
      → f (g s) s ≡ (ok b, s')
  unfolding ◌>>=◌
  gets-returns g f s h = h

module _ {S B : Type 0} where
  pub check-returns :
      (c : Bool) (e : Error) (k : Exec S B) (s : S) {b : B} {s' : S}
      → (check c e >> k) s ≡ (ok b, s')
      → (c ≡ true) × (k s ≡ (ok b, s'))
  unfolding ◌>>=◌
  check-returns true e k s h = (refl, h)
  check-returns false e k s h = cc

module _ {S : Type 0} where
  pub check-last :
      (c : Bool) (e : Error) (s : S) {t : S} → check c e s ≡ (ok tt, t) → (c ≡ true) × (t ≡ s)
  unfolding check
  check-last true e s h = (refl, cc)
  check-last false e s h = cc

module _ {S A B : Type 0} where
  -- A part whose only error is `e`, before a rest that raises it.
  pub lift-raises :
      (r : Result A) (f : A → Exec S B) (s : S) (e : Error)
      → ((e' : Error) → r ≡ raise e' → e' ≡ e)
      → ((a : A) → r ≡ ok a → f a s ≡ (raise e, s))
      → (lift r >>= f) s ≡ (raise e, s)
  unfolding ◌>>=◌
  lift-raises (ok a) f s e only later = later a refl
  lift-raises (raise e') f s e only later = ap (λ (x : Error). (raise x, s)) (only e' refl)

  pub gets-eq : (g : S → A) (f : A → Exec S B) (s : S) → (gets g >>= f) s ≡ f (g s) s
  unfolding ◌>>=◌
  gets-eq g f s = refl

module _ {S B : Type 0} where
  pub check-raises : (e : Error) (k : Exec S B) (s : S) → (check false e >> k) s ≡ (raise e, s)
  unfolding ◌>>=◌
  check-raises e k s = refl

module _ {S A : Type 0} where
  abbrev pub kept_or_rolled_back : S → Result A × S → Result A × S
  kept_or_rolled_back before (ok a, after) = (ok a, after)
  kept_or_rolled_back before (raise e, after) = (raise e, before)

  -- `BEGIN IMMEDIATE`, the body, and `commit`, or `rollback` where the body raises.
  unfoldable pub transaction : Exec S A → Exec S A
  transaction m s = kept_or_rolled_back s (m s)

  rolled_back-returns :
      (before : S) (x : Result A × S) {a : A} {t : S}
      → kept_or_rolled_back before x ≡ (ok a, t)
      → x ≡ (ok a, t)
  rolled_back-returns before (ok b, after) h = h
  rolled_back-returns before (raise e, after) h = cc

  pub transaction-returns :
      (m : Exec S A) (s : S) {a : A} {t : S} → transaction m s ≡ (ok a, t) → m s ≡ (ok a, t)
  unfolding transaction
  transaction-returns m s h = rolled_back-returns s (m s) h

  rolled_back-raises :
      (before : S) (x : Result A × S) {e : Error} {t : S}
      → kept_or_rolled_back before x ≡ (raise e, t)
      → t ≡ before
  rolled_back-raises before (ok b, after) h = cc
  rolled_back-raises before (raise e, after) h = cc

  pub transaction-raises :
      (m : Exec S A) (s : S) {e : Error} {t : S} → transaction m s ≡ (raise e, t) → t ≡ s
  unfolding transaction
  transaction-raises m s h = rolled_back-raises s (m s) h
