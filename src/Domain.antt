-- ===== src/Domain.antt =====
-- reference/implementation/src/agent_pay/domain.py. Ids and texts are lists of character codes, a
-- `Decimal` is an integer of ten-thousandths.
use agent_pay.Prelude.{ℕ, ℤ, pos, ltb_ℤ, Text, length, not, Option, Result, ok, nat_eq}
use agent_pay.Prelude.Errors.{Error.value_error, raise_if, ◌>>◌}

pub data PaymentStatus : Type 0 where
  requested policy_check budget_check approval_required approved : PaymentStatus
  authentication_required authenticated payment_pending processing : PaymentStatus
  unknown_external_outcome succeeded failed cancelled : PaymentStatus

pub data Decision : Type 0 where
  allow_auto allow_notify require_approval deny : Decision

-- The fields of a `Money`; `make_money` is its constructor with the checks of `__post_init__`.
pub record Money : Type 0 where
  pub value : ℤ
  pub currency : Text

unfoldable pub make_money : ℤ → Text → Result Money
make_money value currency = do
  raise_if (ltb_ℤ value (pos 0)) (value_error "money value cannot be negative")
  raise_if (not (nat_eq (length currency) 3))
      (value_error "currency must be ISO-4217 style 3-letter code")
  ok (record { value = value; currency = currency })

-- What the program reads of a `datetime`: its weekday, Monday being 0, and its time of day in
-- microseconds.
pub record Timestamp : Type 0 where
  pub weekday : ℕ
  pub time : ℕ

pub record PaymentIntent : Type 0 where
  pub payment_id : Text
  pub agent_id : Text
  pub amount : Money
  pub merchant_domain : Text
  pub idempotency_key : Text
  pub merchant_category : Option Text
  pub region : Option Text
  pub instrument_class : Option Text
  pub requested_at : Option Timestamp

abbrev pub Fingerprint : Type 0
Fingerprint = Text × Text × ℤ × Text × Text

abbrev pub fingerprint : PaymentIntent → Fingerprint
fingerprint p = (p.agent_id, p.merchant_domain, p.amount.value, p.amount.currency, p.payment_id)
