-- ===== src/WriteService/Atomic.antt =====
-- A write that raises leaves the store as it was.
use holographic_plus.Base.{◌≡◌, refl, Bool, true, false, Option, Result, ok, raise}
use holographic_plus.Exec.{Exec, ◌>>=◌, transaction, kept_or_rolled_back, continue, lift}
use holographic_plus.Policy.Grants.{ConnectionContext}
use holographic_plus.Policy.Writes.{WriteRequest}
use holographic_plus.StateSlots.Candidate.{StateCandidate}
use holographic_plus.WriteService.Rows.{Vault, Service, Surroundings}
use holographic_plus.WriteService.Write.{reads, write}

abbrev pub is_ok {ℓ} : {A : Type ℓ} → Result A → Bool
is_ok (ok a) = true
is_ok (raise e) = false

-- A method that changes nothing unless its result meets the test.
record Reverts {S A : Type 0} (test : Result A → Bool) (method : Exec S A) : Type 0 where
  reverted : (s : S) → test (method s).0 ≡ false → (method s).1 ≡ s

module _ {S A B : Type 0} {test : Result B → Bool} where
  Reverts-lift :
      (given : Result A) (rest : A → Exec S B)
      → ((a : A) → Reverts test (rest a))
      → Reverts test (lift given >>= rest)
  unfolding ◌>>=◌
  Reverts-lift (raise e) rest h = record { reverted = λ s failed. refl }
  Reverts-lift (ok a) rest h = h a

  reads_then :
      (outcome : Result A) (rest : A → Exec S B) (s : S)
      → ((a : A) → Reverts test (rest a))
      → test (continue (outcome, s) rest).0 ≡ false
      → (continue (outcome, s) rest).1 ≡ s
  reads_then (raise e) rest s h failed = refl
  reads_then (ok a) rest s h failed = (h a).reverted s failed

  Reverts-reads :
      (f : S → Result A) (rest : A → Exec S B)
      → ((a : A) → Reverts test (rest a))
      → Reverts test (reads f >>= rest)
  unfolding reads ◌>>=◌
  Reverts-reads f rest h = record { reverted = λ s failed. reads_then (f s) rest s h failed }

Reverts-transaction : {S A : Type 0} (m : Exec S A) → Reverts is_ok (transaction m)
unfolding transaction
Reverts-transaction m = record { reverted = λ s failed. go s (m s) failed }
  where
    go :
        {S A : Type 0} (s : S) (x : Result A × S)
        → is_ok (kept_or_rolled_back s x).0 ≡ false
        → (kept_or_rolled_back s x).1 ≡ s
    go s (ok a, t) failed = cc
    go s (raise e, t) failed = refl

-- A write that raises, for whatever reason, leaves the store as it was before the call.
pub write_rolls_back :
    (service : Service) (at : Surroundings) (given : ConnectionContext) (r : WriteRequest)
    (candidate : Option StateCandidate) (v : Vault)
    → is_ok (write service at given r candidate v).0 ≡ false
    → (write service at given r candidate v).1 ≡ v
unfolding write
write_rolls_back service at given r candidate v failed =
    Reverts.reverted (Reverts-lift _ _ (λ a. Reverts-reads _ _ (λ query. Reverts-transaction _))) v
      failed
