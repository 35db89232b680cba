-- ===== src/Prelude/Lists.antt =====
-- Lists measured by native numbers, predicates on lists, and sums of amounts.
use Prim.Native.Nat.{ℕ, suc, ◌+◌}
use mathlib.Core.Path.{◌≡◌, refl}
use mathlib.Core.Bool.{Bool, false, ◌||◌}
use mathlib.Core.List.{List, [], ◌∷◌, ◌++◌}
use native.Mathlib.Omega.{arith}
use agent_pay.Prelude.Tests.{if◌then◌else◌}
use agent_pay.Prelude.Equality.{Eq, ◌==◌}
use agent_pay.Prelude.Int.{ℤ, pos, ◌+ℤ◌, int_laws}

module _ {ℓ} {A : Type ℓ} where
  abbrev pub length : List A → ℕ
  length [] = 0
  length (x ∷ xs) = suc (length xs)

  pub length-append : (xs ys : List A) → length (xs ++ ys) ≡ length xs + length ys
  length-append [] ys = omega arith
  length-append (x ∷ xs) ys = omega (arith, length-append xs ys)

  abbrev pub All {κ} : (A → Type κ) → List A → Type κ
  All P [] = Unit
  All P (x ∷ xs) = P x × All P xs

  -- `any(p(x) for x in xs)`
  abbrev pub any : (A → Bool) → List A → Bool
  any p [] = false
  any p (x ∷ xs) = p x || any p xs

  pub any-false : (p : A → Bool) (xs : List A) → any p xs ≡ false → All (λ x. p x ≡ false) xs
  any-false p [] h = tt
  any-false p (x ∷ xs) h = (ground arith, any-false p xs (ground arith))

  pub any-of_All : (p : A → Bool) (xs : List A) → All (λ x. p x ≡ false) xs → any p xs ≡ false
  any-of_All p [] h = refl
  any-of_All p (x ∷ xs) h = rw (h.0) (any-of_All p xs h.1)

  pub All-map {κ μ} :
      (P : A → Type κ) (Q : A → Type μ) (f : (x : A) → P x → Q x) (xs : List A)
      → All P xs
      → All Q xs
  All-map P Q f [] h = tt
  All-map P Q f (x ∷ xs) h = (f x h.0, All-map P Q f xs h.1)

  -- `[x for x in xs if p(x)]`
  abbrev pub filter : (A → Bool) → List A → List A
  filter p [] = []
  filter p (x ∷ xs) = if p x then x ∷ filter p xs else filter p xs

-- `x in xs`
abbrev pub elem {ℓ} : {A : Type ℓ} ⦃e : Eq A⦄ → A → List A → Bool
elem a [] = false
elem a (x ∷ xs) = x == a || elem a xs

-- The sum of `amount x` over the entries that `p` selects.
module _ {ℓ} {A : Type ℓ} (p : A → Bool) (amount : A → ℤ) where
  abbrev pub sum_where : List A → ℤ
  sum_where [] = pos 0
  sum_where (x ∷ xs) = (if p x then amount x else pos 0) +ℤ sum_where xs

  pub sum_where-append : (xs ys : List A) → sum_where (xs ++ ys) ≡ sum_where xs +ℤ sum_where ys
  sum_where-append [] ys = omega int_laws
  sum_where-append (x ∷ xs) ys = rw (sum_where-append xs ys) (omega int_laws)
