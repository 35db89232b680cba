-- ===== src/LifecycleApi/Amounts.antt =====
-- reference/implementation/src/agent_pay/lifecycle_api.py: `LifecycleAmount.amount`, a text of the
-- form \d+(\.\d{1,4})?, and its `Decimal`.
use agent_pay.Prelude.{
  ℕ, zero, suc, ◌+◌, ◌-◌, ◌*◌, ◌/◌, ◌%◌, ◌^◌, ◌≤◌, ◌<◌, leb, ltb, nat_eq, pos, Text, Bool, true,
  false, ◌&&◌, Option, none, some, [], ◌∷◌, ◌++◌, ◌≡◌, refl, ◌∙◌, arith, if◌then◌else◌, Bool-cases,
  inl, inr,
}
use agent_pay.Store.{Spelled}

abbrev is_digit : ℕ → Bool
is_digit c = leb 48 c && leb c 57

abbrev spelled : ℕ → ℕ → Spelled
spelled value places = record { value = pos value; places = places }

-- The digits after the point; `places` are read, and `value` counts units of 10 ^ -places.
unfoldable pub read_places : ℕ → ℕ → Text → Option Spelled
read_places value places [] =
    if ltb 0 places then some (spelled (value * 10 ^ (4 - places)) places) else none
read_places value places (c ∷ t) =
    let rest = read_places (value * 10 + (c - 48)) (places + 1) t in
    if is_digit c && ltb places 4 then rest else none

-- The digits before the point; `begun` says that there is one.
unfoldable pub read_whole : ℕ → Bool → Text → Option Spelled
read_whole value begun [] = if begun then some (spelled (value * 10000) 0) else none
read_whole value begun (c ∷ t) =
    let rest = read_whole (value * 10 + (c - 48)) true t in
    if is_digit c then rest else if begun && nat_eq c 46 then read_places value 0 t else none

-- `Decimal(amount.amount)` of a text that the pattern accepts.
unfoldable pub decimal_of : Text → Option Spelled
decimal_of t = read_whole 0 false t

-- The decimal digits of a number; a number has no more digits than itself, and one.
digits : ℕ → ℕ → Text
digits zero n = []
digits (suc f) n =
    let rest = digits f (n / 10) ++ (48 + n % 10) ∷ [] in if ltb n 10 then (48 + n) ∷ [] else rest

-- The places of a fraction of ten-thousandths.
places_of : ℕ → ℕ → Text
places_of n zero = []
places_of n (suc zero) = 46 ∷ (48 + n / 1000 % 10) ∷ []
places_of n (suc (suc zero)) = 46 ∷ (48 + n / 1000 % 10) ∷ (48 + n / 100 % 10) ∷ []
places_of n (suc (suc (suc zero))) =
    46 ∷ (48 + n / 1000 % 10) ∷ (48 + n / 100 % 10) ∷ (48 + n / 10 % 10) ∷ []
places_of n (suc (suc (suc (suc p)))) =
    46 ∷ (48 + n / 1000 % 10) ∷ (48 + n / 100 % 10) ∷ (48 + n / 10 % 10) ∷ (48 + n % 10) ∷ []

-- `str` of a `Decimal` of `n` ten-thousandths with so many places.
unfoldable pub printed : ℕ → ℕ → Text
unfolding digits places_of
printed n places = digits (suc (n / 10000)) (n / 10000) ++ places_of n places

read_digit :
    (value d : ℕ) (begun : Bool) (t : Text)
    → d < 10
    → read_whole value begun ((48 + d) ∷ t) ≡ read_whole (value * 10 + d) true t
unfolding read_whole
read_digit value d begun t h =
    let digit : is_digit (48 + d) ≡ true = ground arith in
    let same : 48 + d - 48 ≡ d = omega arith in rw digit (rw same refl)

append_cons : (s t : Text) (c : ℕ) → (s ++ c ∷ []) ++ t ≡ s ++ c ∷ t
append_cons [] t c = refl
append_cons (x ∷ s) t c = rw (append_cons s t c) refl

-- The digits of a number read as the number.
read-digits :
    (f n : ℕ) (t : Text) → n < f → read_whole 0 false (digits f n ++ t) ≡ read_whole n true t
unfolding digits
read-digits zero n t h = absurd (omega arith)
read-digits (suc f) n t h = elim (Bool-cases (ltb n 10)) [
  | inl small ↦
      let same : 0 * 10 + n ≡ n = omega arith in
      rw small (read_digit 0 n false t (ground arith) ∙ (λ i. read_whole (same i) true t))
  | inr large ↦
      let back : n / 10 * 10 + n % 10 ≡ n = omega arith in
      rw large (
        rw (append_cons (digits f (n / 10)) t (48 + n % 10)) (
          read-digits f (n / 10) ((48 + n % 10) ∷ t) (ground arith)
          ∙ read_digit (n / 10) (n % 10) true t (omega arith)
          ∙ (λ i. read_whole (back i) true t)))
]

-- A place that is read.
read_place :
    (value p d : ℕ) (t : Text)
    → d < 10
    → p < 4
    → read_places value p ((48 + d) ∷ t) ≡ read_places (value * 10 + d) (p + 1) t
unfolding read_places
read_place value p d t h k =
    let digit : is_digit (48 + d) ≡ true = ground arith in
    let room : ltb p 4 ≡ true = ground arith in
    let same : 48 + d - 48 ≡ d = omega arith in rw (digit, room) (rw same refl)

-- The text starts with a point.
read_point : (n : ℕ) (t : Text) → read_whole n true (46 ∷ t) ≡ read_places n 0 t
unfolding read_whole
read_point n t = refl

read-places_of :
    (v p : ℕ)
    → p ≤ 4
    → v % 10 ^ (4 - p) ≡ 0
    → read_whole (v / 10000) true (places_of v p) ≡ some (spelled v p)
unfolding places_of
read-places_of v zero h k = unfold read_whole in cc (back v k)
  where
    back : (v : ℕ) → v % 10000 ≡ 0 → v / 10000 * 10000 ≡ v
    back v k = omega arith
read-places_of v (suc zero) h k =
    read_point (v / 10000) _
    ∙ read_place (v / 10000) 0 (v / 1000 % 10) [] (omega arith) (omega arith)
    ∙ (unfold read_places in cc (back v k))
  where
    back : (v : ℕ) → v % 1000 ≡ 0 → (v / 10000 * 10 + v / 1000 % 10) * 1000 ≡ v
    back v k = omega arith
read-places_of v (suc (suc zero)) h k =
    read_point (v / 10000) _
    ∙ read_place (v / 10000) 0 (v / 1000 % 10) _ (omega arith) (omega arith)
    ∙ read_place _ 1 (v / 100 % 10) [] (omega arith) (omega arith)
    ∙ (unfold read_places in cc (back v k))
  where
    back : (v : ℕ) → v % 100 ≡ 0 → ((v / 10000 * 10 + v / 1000 % 10) * 10 + v / 100 % 10) * 100 ≡ v
    back v k = omega arith
read-places_of v (suc (suc (suc zero))) h k =
    read_point (v / 10000) _
    ∙ read_place (v / 10000) 0 (v / 1000 % 10) _ (omega arith) (omega arith)
    ∙ read_place _ 1 (v / 100 % 10) _ (omega arith) (omega arith)
    ∙ read_place _ 2 (v / 10 % 10) [] (omega arith) (omega arith)
    ∙ (unfold read_places in cc (back v k))
  where
    back :
        (v : ℕ)
        → v % 10 ≡ 0
        → (((v / 10000 * 10 + v / 1000 % 10) * 10 + v / 100 % 10) * 10 + v / 10 % 10) * 10 ≡ v
    back v k = omega arith
read-places_of v (suc (suc (suc (suc zero)))) h k =
    read_point (v / 10000) _
    ∙ read_place (v / 10000) 0 (v / 1000 % 10) _ (omega arith) (omega arith)
    ∙ read_place _ 1 (v / 100 % 10) _ (omega arith) (omega arith)
    ∙ read_place _ 2 (v / 10 % 10) _ (omega arith) (omega arith)
    ∙ read_place _ 3 (v % 10) [] (omega arith) (omega arith)
    ∙ (unfold read_places in cc (back v))
  where
    back :
        (v : ℕ)
        → ((((v / 10000 * 10 + v / 1000 % 10) * 10 + v / 100 % 10) * 10 + v / 10 % 10) * 10
              + v % 10)
            * 1
          ≡ v
    back v = omega arith
read-places_of v (suc (suc (suc (suc (suc p))))) h k = absurd (omega arith)

-- The text that Python prints for an amount, with up to four places, is read as that amount with
-- those places.
pub decimal_of-printed :
    (v p : ℕ)
    → p ≤ 4
    → v % 10 ^ (4 - p) ≡ 0
    → decimal_of (printed v p) ≡ some (record { value = pos v; places = p })
unfolding decimal_of printed
decimal_of-printed v p h k =
    read-digits (suc (v / 10000)) (v / 10000) (places_of v p) (omega arith) ∙ read-places_of v p h k
