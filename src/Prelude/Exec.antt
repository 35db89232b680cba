-- ===== src/Prelude/Exec.antt =====
-- Methods that change an object or the database and may raise. What was written before a raise
-- stays written, so the state comes back beside the error too.
pub mod Keeps
pub mod Raises
pub mod Reads
use mathlib.Core.Bool.{Bool, true, false}
use mathlib.Core.Option.{Option, none, some}
use agent_pay.Prelude.Errors.{Error, Result, ok, err}
use agent_pay.Prelude.Tests.{if◌then◌else◌}

abbrev pub Exec {ℓ} : Type ℓ → Type ℓ → Type ℓ
Exec S A = S → Result A × S

module _ {ℓ} {S A : Type ℓ} where
  unfoldable pub pure : A → Exec S A
  pure a s = (ok a, s)

  unfoldable pub raise : Error → Exec S A
  raise e s = (err e, s)

  -- A query.
  unfoldable pub gets : (S → A) → Exec S A
  gets f s = (ok (f s), s)

  -- A pure call that may raise.
  unfoldable pub lift : Result A → Exec S A
  lift r s = (r, s)

  -- `if not row: raise e`
  unfoldable pub or_raise : Option A → Error → Exec S A
  or_raise none e s = (err e, s)
  or_raise (some a) e s = (ok a, s)

  -- `if test: m else: n`
  unfoldable pub choose : Bool → Exec S A → Exec S A → Exec S A
  choose true m n = m
  choose false m n = n

module _ {ℓ} {S A B : Type ℓ} where
  abbrev pub continue : Result A → (A → Exec S B) → Exec S B
  continue (ok a) f s = f a s
  continue (err e) f s = (err e, s)

  infixl 5 ◌>>=◌ ◌>>◌
  -- Opening this opens the actions above too.
  unfoldable pub ◌>>=◌ : Exec S A → (A → Exec S B) → Exec S B
  unfolding pure raise gets lift or_raise choose
  ◌>>=◌ m f s = let (r, s') = m s in continue r f s'

  abbrev pub ◌>>◌ : Exec S A → Exec S B → Exec S B
  m >> k = m >>= λ _. k

module _ {S : Type 0} where
  -- A statement that writes.
  unfoldable pub update : (S → S) → Exec S (Unit {0})
  update f s = (ok tt, f s)

  -- `if test: raise e`
  unfoldable pub raise_if : Bool → Error → Exec S (Unit {0})
  raise_if true e s = (err e, s)
  raise_if false e s = (ok tt, s)
