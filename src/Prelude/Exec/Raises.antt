-- ===== src/Prelude/Exec/Raises.antt =====
-- Methods that never return.
use mathlib.Core.Path.{◌≡◌, refl}
use mathlib.Core.Bool.{Bool, true, false}
use agent_pay.Prelude.Errors.{Error, Result, ok, err}
use agent_pay.Prelude.Exec.{Exec, raise, choose, continue, ◌>>=◌}

pub record Raises {S A : Type 0} (m : Exec S A) : Type 0 where
  pub at : (s : S) → (e : Error) × ((m s).0 ≡ err e)

module _ {S A : Type 0} where
  pub raise-Raises : (e : Error) → Raises (raise {S = S} {A = A} e)
  unfolding raise
  raise-Raises e = record { at = λ s. (e, refl) }

  pub choose-Raises : (b : Bool) (m n : Exec S A) → Raises m → Raises n → Raises (choose b m n)
  unfolding choose
  choose-Raises true m n h k = h
  choose-Raises false m n h k = k

module _ {S A B : Type 0} where
  -- What stands before or after a method that never returns does not matter.
  pub first-Raises : (m : Exec S A) (f : A → Exec S B) → Raises m → Raises (m >>= f)
  unfolding ◌>>=◌
  first-Raises m f h = record { at = λ s. go (m s) (h.at s) }
    where
      go :
          (r : Result A × S)
          → (e : Error) × (r.0 ≡ err e)
          → (e : Error) × ((continue r.0 f r.1).0 ≡ err e)
      go (ok a, t) (e, h) = absurd (cc)
      go (err x, t) h = (x, refl)

  pub rest-Raises : (m : Exec S A) (f : A → Exec S B) → ((a : A) → Raises (f a)) → Raises (m >>= f)
  unfolding ◌>>=◌
  rest-Raises m f h = record { at = λ s. go (m s) }
    where
      go : (r : Result A × S) → (e : Error) × ((continue r.0 f r.1).0 ≡ err e)
      go (ok a, t) = (h a).at t
      go (err x, t) = (x, refl)
