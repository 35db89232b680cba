-- ===== src/Authorization.antt =====
-- reference/implementation/src/agent_pay/authorization.py, and `ensure_pending` of approval.py
pub mod Grants
mod Tests
use agent_pay.Prelude.{
  ℕ, ℤ, pos, ◌-ℤ◌, ltb_ℤ, leb_ℤ, Text, codes, upper, is_empty, Eq, ◌==◌, List_eq, ℕ_eq, Bool, true,
  false, not, ◌&&◌, ◌||◌, Option, none, some, List, elem, Result, ok,
}
use agent_pay.Prelude.Errors.{raise_if, ◌>>◌, Error.permission_error, Error.value_error}

-- A `datetime`: its wall clock, and its offset from UTC where it has a zone.
pub record Moment : Type 0 where
  pub wall : ℤ
  pub offset : Option ℤ

-- The moment in UTC; a `datetime` without a zone counts as UTC.
abbrev pub instant : Moment → ℤ
instant m = elim m.offset [ none ↦ m.wall | some offset ↦ m.wall -ℤ offset ]

pub record AuthorizationContext : Type 0 where
  pub evidence_id : Text
  pub issuer : Text
  pub agent_id : Text
  pub account_id : Text
  pub delegation_id : Option Text
  pub scope : List Text
  pub max_amount : Option ℤ
  pub currency : Option Text
  pub valid_until : Option Moment
  pub digest : Option Text
  pub version : Option Text

-- The arguments of `validate`.
pub record Request : Type 0 where
  pub agent_id : Text
  pub account_id : Text
  pub amount : ℤ
  pub currency : Text
  pub action : Text

abbrev pub lacks_amount : Option ℤ → Bool
lacks_amount none = true
lacks_amount (some most) = leb_ℤ most (pos 0)

abbrev pub exceeds : ℤ → Option ℤ → Bool
exceeds amount none = false
exceeds amount (some most) = ltb_ℤ most amount

abbrev pub lacks_currency : Option Text → Bool
lacks_currency none = true
lacks_currency (some c) = is_empty c

abbrev pub differs : Option Text → Text → Bool
differs none currency = false
differs (some c) currency = not (upper c == upper currency)

abbrev pub is_missing : Option Moment → Bool
is_missing none = true
is_missing (some m) = false

-- now >= expiry
abbrev pub is_over : ℤ → Option Moment → Bool
is_over now none = false
is_over now (some m) = leb_ℤ (instant m) now

-- `AuthorizationContext.validate`
unfoldable pub validate : AuthorizationContext → Request → ℤ → Result (Unit {0})
validate c r now = do
  raise_if (is_empty c.evidence_id || is_empty c.issuer)
      (permission_error "authorization evidence is incomplete")
  raise_if (is_empty c.agent_id || is_empty c.account_id)
      (permission_error "authorization identity is incomplete")
  raise_if (not (c.agent_id == r.agent_id) || not (c.account_id == r.account_id))
      (permission_error "authorization subject/account mismatch")
  raise_if (not (elem r.action c.scope))
      (permission_error "requested action is outside authorization scope")
  raise_if (leb_ℤ r.amount (pos 0)) (permission_error "payment amount must be positive")
  raise_if (lacks_amount c.max_amount) (permission_error "authorized maximum amount is required")
  raise_if (exceeds r.amount c.max_amount) (permission_error "payment exceeds authorized amount")
  raise_if (lacks_currency c.currency) (permission_error "authorized currency is required")
  raise_if (differs c.currency r.currency)
      (permission_error "payment currency is outside authorization")
  raise_if (is_missing c.valid_until) (permission_error "authorization expiry is required")
  raise_if (is_over now c.valid_until) (permission_error "authorization evidence is expired")
  ok tt

-- `ensure_pending`
unfoldable pub ensure_pending : Text → Option Moment → ℤ → Result (Unit {0})
ensure_pending status expires_at now = do
  raise_if (not (status == codes "PENDING")) (value_error "approval is no longer pending")
  raise_if (is_over now expires_at) (value_error "approval has expired")
  ok tt
