-- ===== src/Prelude/Errors.antt =====
-- Python's exceptions as values. A reason is the message of the source.
use Prim.Native.Nat.{ℕ}
use Prim.Native.String.{String}
use mathlib.Core.Bool.{Bool, true, false}

pub data Error : Type 0 where
  -- `ValueError` and its subclasses of the program
  value_error : String → Error
  -- `PermissionError` and its subclasses of the program
  permission_error : String → Error
  lookup_error : String → Error
  -- `HTTPException` with its status code
  http_error : ℕ → String → Error
  -- a violated unique or check constraint of the database
  integrity_error : String → Error
  -- a statement that PostgreSQL refuses
  database_error : String → Error
  runtime_error : String → Error

pub data Result {ℓ} (A : Type ℓ) : Type ℓ where
  ok : A → Result A
  err : Error → Result A

module _ {ℓ μ} {A : Type ℓ} {B : Type μ} where
  infixl 5 ◌>>=◌ ◌>>◌
  -- An error ends the sequence.
  abbrev pub ◌>>=◌ : Result A → (A → Result B) → Result B
  err reason >>= next = err reason
  ok value >>= next = next value

  abbrev pub ◌>>◌ : Result A → Result B → Result B
  first >> second = first >>= λ value. second

-- `if c: raise e`
abbrev pub raise_if : Bool → Error → Result (Unit {0})
raise_if true e = err e
raise_if false e = ok tt
