-- ===== src/Prelude/Ids.antt =====
-- Tables whose ids are distinct and below the next one.
use Prim.Native.Nat.{ℕ, ◌+◌, ◌<◌}
use mathlib.Core.Path.{◌≡◌, refl}
use mathlib.Core.Bool.{Bool}
use mathlib.Core.Option.{none, some}
use mathlib.Core.List.{[], ◌∷◌}
use mathlib.Core.Logic.{inl, inr}
use native.Mathlib.Omega.{arith}
use agent_pay.Prelude.Tests.{nat_eq, Bool-cases}
use agent_pay.Prelude.Equality.{ℕ_eq}
use agent_pay.Prelude.Dicts.{lookup, modify, lookup-modify}
use agent_pay.Prelude.Rows.{Table, append_row, find_row, lookup-append_row}

module _ {V : Type 0} where
  abbrev pub Below : ℕ → Table V → Type 0
  Below n [] = Unit
  Below n ((k, v) ∷ t) = (k < n) × Below n t

  abbrev pub Distinct : Table V → Type 0
  Distinct [] = Unit
  Distinct ((k, v) ∷ t) = (lookup k t ≡ none) × Distinct t

  pub Below-suc : (n : ℕ) (t : Table V) → Below n t → Below (n + 1) t
  Below-suc n [] h = tt
  Below-suc n ((k, v) ∷ t) h = (omega (arith, h.0), Below-suc n t h.1)

  pub Below-append_row :
      (n : ℕ) (v : V) (t : Table V) → Below n t → Below (n + 1) (append_row n v t)
  Below-append_row n v [] h = (omega arith, tt)
  Below-append_row n v ((k, w) ∷ t) h = (omega (arith, h.0), Below-append_row n v t h.1)

  pub Below-modify : (n j : ℕ) (f : V → V) (t : Table V) → Below n t → Below n (modify j f t)
  unfolding modify
  Below-modify n j f [] h = tt
  Below-modify n j f ((k, w) ∷ t) h = elim (Bool-cases (nat_eq k j)) [
    | inl here ↦ rw here (h.0, h.1)
    | inr later ↦ rw later (h.0, Below-modify n j f t h.1)
  ]

  lookup-Below : (n : ℕ) (t : Table V) → Below n t → lookup n t ≡ none
  unfolding lookup
  lookup-Below n [] h = refl
  lookup-Below n ((k, v) ∷ t) h = ground (arith, lookup-Below n t h.1, h.0)

  pub Distinct-append_row :
      (n : ℕ) (v : V) (t : Table V) → Below n t → Distinct t → Distinct (append_row n v t)
  unfolding lookup
  Distinct-append_row n v [] h d = (refl, tt)
  Distinct-append_row n v ((k, w) ∷ t) h d =
      (ground (arith, lookup-append_row n k v t, h.0, d.0), Distinct-append_row n v t h.1 d.1)

  pub Distinct-modify : (j : ℕ) (f : V → V) (t : Table V) → Distinct t → Distinct (modify j f t)
  unfolding modify
  Distinct-modify j f [] d = tt
  Distinct-modify j f ((k, w) ∷ t) d = elim (Bool-cases (nat_eq k j)) [
    | inl here ↦ rw here (d.0, d.1)
    | inr later ↦ rw later (ground (arith, lookup-modify j k f t, d.0), Distinct-modify j f t d.1)
  ]

  -- A row that a search finds is the row at its id.
  pub find_row-lookup :
      (p : V → Bool) (k : ℕ) (v : V) (t : Table V)
      → Distinct t
      → find_row p t ≡ some (k, v)
      → lookup k t ≡ some v
  unfolding find_row lookup
  find_row-lookup p k v [] d h = cc
  find_row-lookup p k v ((i, w) ∷ t) d h = ground (arith, d.0, find_row-lookup p k v t d.1)

  pub lookup-appended :
      (n : ℕ) (v : V) (t : Table V) → Below n t → lookup n (append_row n v t) ≡ some v
  lookup-appended n v t h = ground (arith, lookup-append_row n n v t, lookup-Below n t h)
