-- ===== src/Instruments.antt =====
-- reference/implementation/src/agent_pay/instruments.py
pub mod Selection
mod Tests
use agent_pay.Prelude.{
  Text, upper, Eq, eq_of_discrete, ◌==◌, List_eq, ℕ_eq, Bool, true, false, not, ◌&&◌, ◌||◌, Option,
  none, some, List, [], ◌∷◌, elem, Result, ok, err,
}
use agent_pay.Prelude.Errors.{Error.value_error, raise_if, ◌>>=◌, ◌>>◌}

pub data InstrumentStatus : Type 0 where
  active suspended closed : InstrumentStatus

pub data InstrumentType : Type 0 where
  wallet virtual_card bank_account payment_gateway other : InstrumentType

unfoldable pub InstrumentStatus-discrete : Discrete InstrumentStatus
InstrumentStatus-discrete = hlevel

instance abbrev pub InstrumentStatus_eq : Eq InstrumentStatus
InstrumentStatus_eq = eq_of_discrete InstrumentStatus-discrete

pub record PaymentInstrument : Type 0 where
  pub instrument_id : Text
  pub account_id : Text
  pub instrument_type : InstrumentType
  pub currency : Text
  pub status : InstrumentStatus
  pub merchant_domains : List Text
  pub provider_reference : Option Text

-- `merchant_domains and merchant_domain not in merchant_domains`
abbrev pub excludes : List Text → Option Text → Bool
excludes [] domain = false
excludes (d ∷ ds) none = true
excludes (d ∷ ds) (some domain) = not (elem domain (d ∷ ds))

-- What a payment asks of an instrument.
pub record Need : Type 0 where
  pub account_id : Text
  pub currency : Text
  pub merchant_domain : Option Text

-- `PaymentInstrument.validate`
unfoldable pub validate : Need → PaymentInstrument → Result (Unit {0})
validate need i = do
  raise_if (not (i.account_id == need.account_id))
      (value_error "payment instrument belongs to a different account")
  raise_if (not (i.status == InstrumentStatus.active))
      (value_error "payment instrument is not active")
  raise_if (not (upper i.currency == upper need.currency))
      (value_error "payment instrument currency is incompatible")
  raise_if (excludes i.merchant_domains need.merchant_domain)
      (value_error "payment instrument is not permitted for this merchant")

-- `InstrumentSelector.select`; the detail that it appends to its message is left out.
unfoldable pub select : Need → List PaymentInstrument → Result PaymentInstrument
select need [] = err (value_error "no eligible payment instrument")
select need (i ∷ is) = elim (validate need i) [ ok valid ↦ ok i | err e ↦ select need is ]
