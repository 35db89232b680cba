-- ===== src/Prelude/Exec/Reads.antt =====
-- Methods that read and write nothing: they return what they ensure, or raise.
use mathlib.Core.Path.{◌≡◌, refl}
use mathlib.Core.Logic.{◌⊎◌, inl, inr}
use mathlib.Core.Option.{Option, none, some}
use agent_pay.Prelude.Errors.{Error, Result, ok, err}
use agent_pay.Prelude.Exec.{Exec, gets, lift, or_raise, ◌>>=◌}

abbrev pub Reads : {S A : Type 0} → (A → Type 0) → Exec S A → S → Type 0
Reads {A = A} Q m s = ((a : A) × (m s ≡ (ok a, s)) × Q a) ⊎ ((e : Error) × (m s ≡ (err e, s)))

module _ {S A B : Type 0} (Q : B → Type 0) where
  pub or_raise-Reads :
      (o : Option A) (e : Error) (f : A → Exec S B) (s : S)
      → ((a : A) → o ≡ some a → Reads Q (f a) s)
      → Reads Q (or_raise o e >>= f) s
  unfolding ◌>>=◌
  or_raise-Reads none e f s h = inr (e, refl)
  or_raise-Reads (some a) e f s h = h a refl

  pub lift-Reads :
      (r : Result A) (f : A → Exec S B) (s : S)
      → ((a : A) → r ≡ ok a → Reads Q (f a) s)
      → Reads Q (lift r >>= f) s
  unfolding ◌>>=◌
  lift-Reads (ok a) f s h = h a refl
  lift-Reads (err e) f s h = inr (e, refl)

  pub gets-Reads :
      (q : S → A) (f : A → Exec S B) (s : S) → Reads Q (f (q s)) s → Reads Q (gets q >>= f) s
  unfolding ◌>>=◌
  gets-Reads q f s h = h

module _ {S : Type 0} {B : Type 0} (Q : B → Type 0) where
  pub last-Reads : (r : Result B) (s : S) → ((a : B) → r ≡ ok a → Q a) → Reads {S = S} Q (lift r) s
  unfolding lift
  last-Reads (ok a) s h = inl (a, refl, h a refl)
  last-Reads (err e) s h = inr (e, refl)
