-- ===== src/Prelude/Keeps.antt =====
-- Invariants of methods that may fail: they hold after a refusal too.
use mathlib.Core.Bool.{Bool, true, false}
use secretd.Prelude.Tests.{if◌then◌else◌}
use secretd.Prelude.Exec.{Exec, continue, ◌>>=◌, ◌>>◌}
use secretd.Prelude.Result.{Result, ok, err}

module _ {S : Type 0} (P : S → Type 0) where
  abbrev pub Keeps : {A : Type 0} → Exec S A → Type 0
  Keeps m = (s : S) → P s → P (m s).1

  continue-Keeps :
      {A B : Type 0} (k : A → Exec S B) (step : Result A × S)
      → ((a : A) → Keeps (k a))
      → P step.1
      → P (continue k step).1
  continue-Keeps k (ok a, s) h p = h a s p
  continue-Keeps k (err f, s) h p = p

  pub bind-Keeps :
      {A B : Type 0} (m : Exec S A) (k : A → Exec S B)
      → Keeps m
      → ((a : A) → Keeps (k a))
      → Keeps (m >>= k)
  bind-Keeps m k h q s p = continue-Keeps k (m s) q (h s p)

  pub then-Keeps :
      {B : Type 0} (m : Exec S (Unit {0})) (k : Exec S B) → Keeps m → Keeps k → Keeps (m >> k)
  then-Keeps m k h q s p = continue-Keeps (λ _. k) (m s) (λ _. q) (h s p)

  pub if-Keeps :
      {A : Type 0} (b : Bool) (m k : Exec S A) → Keeps m → Keeps k → Keeps (if b then m else k)
  if-Keeps true m k h q = h
  if-Keeps false m k h q = q
