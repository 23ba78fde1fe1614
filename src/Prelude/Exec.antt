-- ===== src/Prelude/Exec.antt =====
-- Methods with `&mut self` that may fail: the state comes back beside the error too, since what was
-- written before an early return stays written.
use mathlib.Core.Path.{◌≡◌, refl}
use native.Mathlib.Omega.{arith}
use secretd.Prelude.Result.{Failure, Result, ok, err}

abbrev pub Exec : Type 0 → Type 0 → Type 0
Exec S A = S → Result A × S

module _ {S : Type 0} where
  abbrev pub pure : {A : Type 0} → A → Exec S A
  pure a s = (ok a, s)

  abbrev pub throw : {A : Type 0} → Failure → Exec S A
  throw e s = (err e, s)

  -- a value that another component returned, with `?`
  abbrev pub lift : {A : Type 0} → Result A → Exec S A
  lift r s = (r, s)

  abbrev pub read : {A : Type 0} → (S → A) → Exec S A
  read f s = (ok (f s), s)

  abbrev pub modify : (S → S) → Exec S (Unit {0})
  modify f s = (ok tt, f s)

  -- what follows a step, from the step's result and the state that it left
  abbrev pub continue : {A B : Type 0} → (A → Exec S B) → Result A × S → Result B × S
  continue k (ok a, s) = k a s
  continue k (err e, s) = (err e, s)

  infixl 5 ◌>>=◌ ◌>>◌
  abbrev pub ◌>>=◌ : {A B : Type 0} → Exec S A → (A → Exec S B) → Exec S B
  ◌>>=◌ m k s = continue k (m s)

  abbrev pub ◌>>◌ : {B : Type 0} → Exec S (Unit {0}) → Exec S B → Exec S B
  ◌>>◌ m k s = continue (λ _. k) (m s)

module _ {S A B : Type 0} where
  -- A chain that succeeds has passed its first step, and the rest has succeeded from there.
  pub continue-ok :
      (k : A → Exec S B) (step : Result A × S) {b : B} {t : S}
      → continue k step ≡ (ok b, t)
      → (a : A) × (step.0 ≡ ok a) × (k a step.1 ≡ (ok b, t))
  continue-ok k (ok a, s) e = (a, refl, e)
  continue-ok k (err f, s) e = ground arith

-- a result that is looked at instead of passed on
abbrev pub attempt : {S A : Type 0} → Exec S A → Exec S (Result A)
attempt m s = let (r, t) = m s in (ok r, t)
