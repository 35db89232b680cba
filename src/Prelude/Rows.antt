-- ===== src/Prelude/Rows.antt =====
-- Tables of the database: rows by primary key, in the order of insertion.
use Prim.Native.Nat.{ℕ}
use mathlib.Core.Path.{◌≡◌, refl, sym, subst}
use mathlib.Core.Logic.{inl, inr}
use mathlib.Core.Bool.{Bool, true, false}
use mathlib.Core.Option.{Option, none, some}
use mathlib.Core.List.{[], ◌∷◌, ◌++◌}
use native.Mathlib.Omega.{arith}
use agent_pay.Prelude.Tests.{if◌then◌else◌, nat_eq, Bool-cases}
use agent_pay.Prelude.Equality.{ℕ_eq}
use agent_pay.Prelude.Dicts.{Dict, lookup, modify}
use agent_pay.Prelude.Int.{ℤ, pos, ◌+ℤ◌, ◌-ℤ◌, ◌≤ℤ◌, int_laws}

abbrev pub Table : Type 0 → Type 0
Table V = Dict ℕ V

abbrev pub or_else : {A : Type 0} → Option A → Option A → Option A
or_else none o = o
or_else (some a) o = some a

add_under : (a b c d : ℤ) → a +ℤ b ≡ c +ℤ d → (x : ℤ) → x +ℤ a +ℤ b ≡ x +ℤ c +ℤ d
add_under a b c d h x = rw (regroup x a b) (rw h (sym (regroup x c d)))
  where
    regroup : (x y z : ℤ) → x +ℤ y +ℤ z ≡ x +ℤ (y +ℤ z)
    regroup x y z = omega int_laws

add_nonneg : (b : Bool) (x y : ℤ) → pos 0 ≤ℤ x → pos 0 ≤ℤ y → pos 0 ≤ℤ (if b then x else pos 0) +ℤ y
add_nonneg true x y h k = omega int_laws
add_nonneg false x y h k = omega int_laws

add_le : (b : Bool) (x y z : ℤ) → pos 0 ≤ℤ x → y ≤ℤ z → y ≤ℤ (if b then x else pos 0) +ℤ z
add_le true x y z h k = omega int_laws
add_le false x y z h k = omega int_laws

module _ {V : Type 0} where
  -- `INSERT`: the new row is the last.
  abbrev pub append_row : ℕ → V → Table V → Table V
  append_row k v t = t ++ (k, v) ∷ []

  -- `SELECT ... WHERE p` of the one row, or the first, that fits.
  unfoldable pub find_row : (V → Bool) → Table V → Option (ℕ × V)
  find_row p [] = none
  find_row p ((k, v) ∷ t) = if p v then some (k, v) else find_row p t

  -- `SELECT ... WHERE p ORDER BY created_at DESC LIMIT 1`
  unfoldable pub find_last : (V → Bool) → Table V → Option (ℕ × V)
  find_last p [] = none
  find_last p ((k, v) ∷ t) = or_else (find_last p t) (if p v then some (k, v) else none)

  -- `UPDATE ... WHERE p`
  unfoldable pub modify_where : (V → Bool) → (V → V) → Table V → Table V
  modify_where p f [] = []
  modify_where p f ((k, v) ∷ t) = (k, if p v then f v else v) ∷ modify_where p f t

  -- `SELECT COALESCE(SUM(amount), 0) ... WHERE p`
  unfoldable pub sum_rows : (V → Bool) → (V → ℤ) → Table V → ℤ
  sum_rows p amount [] = pos 0
  sum_rows p amount ((k, v) ∷ t) = (if p v then amount v else pos 0) +ℤ sum_rows p amount t

  pub lookup-append_row :
      (k j : ℕ) (v : V) (t : Table V)
      → lookup j (append_row k v t) ≡ or_else (lookup j t) (if nat_eq k j then some v else none)
  unfolding lookup
  lookup-append_row k j v [] = refl
  lookup-append_row k j v ((i, w) ∷ t) = ground (arith, lookup-append_row k j v t)

  -- A row that the search finds passes its test.
  pub find_row-fits :
      (p : V → Bool) (k : ℕ) (v : V) (t : Table V) → find_row p t ≡ some (k, v) → p v ≡ true
  unfolding find_row
  find_row-fits p k v [] h = cc
  find_row-fits p k v ((i, w) ∷ t) h = ground (arith, find_row-fits p k v t)

  pub find_row-append_row :
      (p : V → Bool) (k : ℕ) (v : V) (t : Table V)
      → find_row p (append_row k v t) ≡ or_else (find_row p t) (if p v then some (k, v) else none)
  unfolding find_row
  find_row-append_row p k v [] = refl
  find_row-append_row p k v ((i, w) ∷ t) = ground (arith, find_row-append_row p k v t)

  pub sum_rows-append_row :
      (p : V → Bool) (amount : V → ℤ) (k : ℕ) (v : V) (t : Table V)
      → sum_rows p amount (append_row k v t)
        ≡ sum_rows p amount t +ℤ (if p v then amount v else pos 0)
  unfolding sum_rows
  sum_rows-append_row p amount k v [] = omega int_laws
  sum_rows-append_row p amount k v ((i, w) ∷ t) =
      rw (sum_rows-append_row p amount k v t) (omega int_laws)

  -- An update of one row moves the sum by what the row weighs before and after.
  pub sum_rows-modify :
      (p : V → Bool) (amount : V → ℤ) (k : ℕ) (f : V → V) {v : V} (t : Table V)
      → lookup k t ≡ some v
      → sum_rows p amount (modify k f t) +ℤ (if p v then amount v else pos 0)
        ≡ sum_rows p amount t +ℤ (if p (f v) then amount (f v) else pos 0)
  unfolding sum_rows modify lookup
  sum_rows-modify p amount k f [] h = cc
  sum_rows-modify p amount k f {v} ((i, w) ∷ t) h = elim (Bool-cases (nat_eq i k)) [
    | inl here ↦
        let e : some w ≡ some v = rw here at h in
        let s : w ≡ v = cc in rw here (rw s (omega int_laws))
    | inr later ↦ rw later (
        add_under _ _ _ _ (sum_rows-modify p amount k f t (rw later at h))
          (if p w then amount w else pos 0))
  ]

  abbrev pub AllRows : (V → Type 0) → Table V → Type 0
  AllRows P [] = Unit
  AllRows P ((k, v) ∷ t) = P v × AllRows P t

  pub AllRows-append_row :
      (P : V → Type 0) (k : ℕ) (v : V) (t : Table V)
      → AllRows P t
      → P v
      → AllRows P (append_row k v t)
  AllRows-append_row P k v [] h q = (q, tt)
  AllRows-append_row P k v ((i, w) ∷ t) h q = (h.0, AllRows-append_row P k v t h.1 q)

  pub AllRows-modify :
      (P : V → Type 0) (k : ℕ) (f : V → V) (t : Table V)
      → ((v : V) → P v → P (f v))
      → AllRows P t
      → AllRows P (modify k f t)
  unfolding modify
  AllRows-modify P k f [] keep h = tt
  AllRows-modify P k f ((i, w) ∷ t) keep h = elim (Bool-cases (nat_eq i k)) [
    | inl here ↦ rw here (keep w h.0, h.1)
    | inr later ↦ rw later (h.0, AllRows-modify P k f t keep h.1)
  ]

  pub AllRows-lookup :
      (P : V → Type 0) (k : ℕ) {v : V} (t : Table V) → AllRows P t → lookup k t ≡ some v → P v
  unfolding lookup
  AllRows-lookup P k [] h e = cc
  AllRows-lookup P k {v} ((i, w) ∷ t) h e = elim (Bool-cases (nat_eq i k)) [
    | inl here ↦ let same : some w ≡ some v = rw here at e in let s : w ≡ v = cc in subst P s h.0
    | inr later ↦ AllRows-lookup P k t h.1 (rw later at e)
  ]

  pub sum_rows_nonneg :
      (p : V → Bool) (amount : V → ℤ) (t : Table V)
      → AllRows (λ v. pos 0 ≤ℤ amount v) t
      → pos 0 ≤ℤ sum_rows p amount t
  unfolding sum_rows
  sum_rows_nonneg p amount [] h = omega arith
  sum_rows_nonneg p amount ((k, v) ∷ t) h =
      add_nonneg (p v) (amount v) (sum_rows p amount t) h.0 (sum_rows_nonneg p amount t h.1)

  -- One selected row weighs no more than the sum.
  pub le-sum_rows :
      (p : V → Bool) (amount : V → ℤ) (k : ℕ) {v : V} (t : Table V)
      → AllRows (λ v. pos 0 ≤ℤ amount v) t
      → lookup k t ≡ some v
      → p v ≡ true
      → amount v ≤ℤ sum_rows p amount t
  unfolding sum_rows lookup
  le-sum_rows p amount k [] h e q = cc
  le-sum_rows p amount k {v} ((i, w) ∷ t) h e q = elim (Bool-cases (nat_eq i k)) [
    | inl here ↦
        let same : some w ≡ some v = rw here at e in
        let s : w ≡ v = cc in rw s (rw q (omega (int_laws, sum_rows_nonneg p amount t h.1)))
    | inr later ↦
        add_le (p w) (amount w) (amount v) (sum_rows p amount t) h.0
          (le-sum_rows p amount k t h.1 (rw later at e) q)
  ]

move_sub : (a b x : ℤ) → a +ℤ x ≡ b +ℤ pos 0 → a ≡ b -ℤ x
move_sub a b x h = grind int_laws

move_add : (a b x : ℤ) → a +ℤ pos 0 ≡ b +ℤ x → a ≡ b +ℤ x
move_add a b x h = grind int_laws

move_none : (a b : ℤ) → a +ℤ pos 0 ≡ b +ℤ pos 0 → a ≡ b
move_none a b h = grind int_laws

-- What an update of one row does to a sum, by whether the row is selected before and after.
module _ {V : Type 0} (p : V → Bool) (amount : V → ℤ) (k : ℕ) (f : V → V) (v : V) (t : Table V)
    (found : lookup k t ≡ some v) where
  pub sum_rows-leaves :
      p v ≡ true
      → p (f v) ≡ false
      → sum_rows p amount (modify k f t) ≡ sum_rows p amount t -ℤ amount v
  sum_rows-leaves h g = move_sub _ _ _ (rw (h, g) at (sum_rows-modify p amount k f t found))

  pub sum_rows-enters :
      p v ≡ false
      → p (f v) ≡ true
      → sum_rows p amount (modify k f t) ≡ sum_rows p amount t +ℤ amount (f v)
  sum_rows-enters h g = move_add _ _ _ (rw (h, g) at (sum_rows-modify p amount k f t found))

  pub sum_rows-stays :
      p v ≡ false → p (f v) ≡ false → sum_rows p amount (modify k f t) ≡ sum_rows p amount t
  sum_rows-stays h g = move_none _ _ (rw (h, g) at (sum_rows-modify p amount k f t found))
