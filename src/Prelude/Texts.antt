-- ===== src/Prelude/Texts.antt =====
-- Texts as lists of character codes. `strip`, `upper` and `lower` are Python's `str` methods on
-- ASCII texts.
use Prim.Native.Nat.{ℕ, ◌+◌, ◌-◌}
use Prim.Native.Char.{code}
use Prim.Native.String.{String}
use mathlib.Core.Path.{◌≡◌, refl}
use mathlib.Core.Bool.{Bool, true, false, ◌&&◌, ◌||◌}
use mathlib.Core.List.{List, [], ◌∷◌, map, reverse}
use mathlib.Core.Option.{Option, none, some}
use native.Mathlib.Omega.{arith}
use agent_pay.Prelude.Tests.{leb, if◌then◌else◌}

abbrev pub Text : Type 0
Text = List ℕ

abbrev pub codes : String → Text
codes String.[] = []
codes (String.◌∷◌ c s) = code c ∷ codes s

unfoldable pub is_space : ℕ → Bool
is_space c = leb 9 c && leb c 13 || leb 28 c && leb c 32

-- `str.lstrip`
unfoldable pub lstrip : Text → Text
unfolding is_space
lstrip [] = []
lstrip (c ∷ t) = if is_space c then lstrip t else c ∷ t

-- `str.strip`
unfoldable pub strip : Text → Text
unfolding lstrip
strip t = reverse (lstrip (reverse (lstrip t)))

unfoldable pub upper_char : ℕ → ℕ
upper_char c = if leb 97 c && leb c 122 then c - 32 else c

unfoldable pub lower_char : ℕ → ℕ
lower_char c = if leb 65 c && leb c 90 then c + 32 else c

-- `str.upper`
unfoldable pub upper : Text → Text
unfolding upper_char
upper t = map upper_char t

-- `str.lower`
unfoldable pub lower : Text → Text
unfolding lower_char
lower t = map lower_char t

-- The truth value of a text: a text counts as true when it is not empty.
abbrev pub is_empty : Text → Bool
is_empty [] = true
is_empty (c ∷ t) = false

-- `x or None` for a text `x`.
unfoldable pub or_none : Text → Option Text
or_none [] = none
or_none (c ∷ t) = some (c ∷ t)

upper_char_idem : (c : ℕ) → upper_char (upper_char c) ≡ upper_char c
unfolding upper_char
upper_char_idem c = ground arith

pub upper_idem : (t : Text) → upper (upper t) ≡ upper t
unfolding upper
upper_idem [] = refl
upper_idem (c ∷ t) = ground (arith, upper_char_idem c, upper_idem t)
