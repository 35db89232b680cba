-- ===== src/Prelude/Dicts.antt =====
-- Python's `dict`, and a table of the database by its primary key: rows in insertion order.
use mathlib.Core.Path.{◌≡◌, refl}
use mathlib.Core.Logic.{◌⊎◌, inl, inr}
use mathlib.Core.Bool.{Bool, true, false}
use mathlib.Core.Option.{Option, none, some}
use mathlib.Core.List.{List, [], ◌∷◌}
use native.Mathlib.Omega.{arith}
use agent_pay.Prelude.Tests.{if◌then◌else◌, Bool-cases, Option-cases}
use agent_pay.Prelude.Equality.{Eq, ◌==◌}

abbrev pub Dict {ℓ κ} : Type ℓ → Type κ → Type (ℓ ⊔ κ)
Dict K V = List (K × V)

abbrev pub map_some {μ ν} : {A : Type μ} {B : Type ν} → (A → B) → Option A → Option B
map_some f none = none
map_some f (some a) = some (f a)

module _ {ℓ κ} {K : Type ℓ} {V : Type κ} ⦃e : Eq K⦄ where
  -- `d.get(k)`
  unfoldable pub lookup : K → Dict K V → Option V
  lookup k [] = none
  lookup k ((j, v) ∷ d) = if j == k then some v else lookup k d

  -- `k in d`
  abbrev pub contains : K → Dict K V → Bool
  contains k d = elim (lookup k d) [ none ↦ false | some _ ↦ true ]

  -- `d[k] = v`
  unfoldable pub insert : K → V → Dict K V → Dict K V
  insert k v [] = (k, v) ∷ []
  insert k v ((j, w) ∷ d) = if j == k then (j, v) ∷ d else (j, w) ∷ insert k v d

  -- `UPDATE ... WHERE id = k`: nothing is written where no row has the key.
  unfoldable pub modify : K → (V → V) → Dict K V → Dict K V
  modify k f [] = []
  modify k f ((j, w) ∷ d) = if j == k then (j, f w) ∷ d else (j, w) ∷ modify k f d

  pub lookup-insert :
      (k j : K) (v : V) (d : Dict K V)
      → lookup j (insert k v d) ≡ (if k == j then some v else lookup j d)
  unfolding lookup insert
  lookup-insert k j v [] = refl
  lookup-insert k j v ((i, w) ∷ d) =
      ground (arith, e.beq_iff k j, e.beq_iff i k, e.beq_iff i j, lookup-insert k j v d)

  pub lookup-modify :
      (k j : K) (f : V → V) (d : Dict K V)
      → lookup j (modify k f d) ≡ (if k == j then map_some f (lookup j d) else lookup j d)
  unfolding lookup modify
  lookup-modify k j f [] = ground arith
  lookup-modify k j f ((i, w) ∷ d) =
      ground (arith, e.beq_iff k j, e.beq_iff i k, e.beq_iff i j, lookup-modify k j f d)

  -- A row of an updated table is a row that was not touched, or the update of one.
  pub modify_cases :
      (k j : K) (f : V → V) (w : V) (d : Dict K V)
      → lookup j (modify k f d) ≡ some w
      → (((k == j) ≡ false) × (lookup j d ≡ some w))
        ⊎ (((k == j) ≡ true) × ((v : V) × (lookup j d ≡ some v) × (w ≡ f v)))
  modify_cases k j f w d h = elim (Bool-cases (k == j)) [
    | inl same ↦ elim (Option-cases (lookup j d)) [
      | inl missing ↦ absurd (ground (arith, lookup-modify k j f d))
      | inr (v, there) ↦ inr (same, (v, there, ground (arith, lookup-modify k j f d)))
    ]
    | inr other ↦ inl (other, ground (arith, lookup-modify k j f d))
  ]
