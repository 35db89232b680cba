-- ===== src/Policy.antt =====
-- reference/implementation/src/agent_pay/policy.py: the evaluation of a spending policy.
pub mod Decisions
mod Tests
use agent_pay.Prelude.{
  ℕ, ℤ, pos, ltb_ℤ, leb_ℤ, leb, Text, codes, strip, upper, lower, or_none, Eq, ◌==◌, List_eq, ℕ_eq,
  Bool, true, false, not, ◌&&◌, ◌||◌, Option, none, some, List, [], ◌∷◌, ◌++◌, elem, if◌then◌else◌,
  is_empty,
}
use agent_pay.Domain.{Decision, Timestamp, PaymentIntent}

pub data Reason : Type 0 where
  policy_limit_not_configured amount_exceeds_transaction_limit : Reason
  currency_denied currency_not_allowed category_denied category_not_allowed : Reason
  merchant_domain_denied merchant_domain_not_allowed region_denied region_not_allowed : Reason
  instrument_class_denied instrument_class_not_allowed : Reason
  request_time_required weekday_not_allowed time_window_not_allowed : Reason
  amount_requires_approval amount_requires_notification policy_allowed : Reason

-- An entry of `evaluated_rules`, as the f-string's arguments.
pub data Rule : Type 0 where
  limit_configured : Rule
  amount_within : ℤ → Rule
  currency_in : Option (List Text) → Rule

pub record PolicyDecision : Type 0 where
  pub decision : Decision
  pub policy_version : Option Text
  pub reasons : List Reason
  pub evaluated_rules : List Rule

pub record SpendingPolicy : Type 0 where
  pub per_transaction_limit : ℤ
  pub notify_above : Option ℤ
  pub approval_above : Option ℤ
  pub allowed_categories : Option (List Text)
  pub denied_categories : List Text
  pub allowed_domains : Option (List Text)
  pub denied_domains : List Text
  pub allowed_currencies : Option (List Text)
  pub denied_currencies : List Text
  pub allowed_regions : Option (List Text)
  pub denied_regions : List Text
  pub allowed_instrument_classes : Option (List Text)
  pub denied_instrument_classes : List Text
  pub allowed_weekdays : Option (List ℕ)
  pub start_time : Option ℕ
  pub end_time : Option ℕ

-- `_time_in_window`
unfoldable pub time_in_window : ℕ → Option ℕ → Option ℕ → Bool
time_in_window value none none = true
time_in_window value none (some end) = leb value end
time_in_window value (some start) none = leb start value
time_in_window value (some start) (some end) =
    if leb start end then leb start value && leb value end else leb start value || leb value end

abbrev text_or_empty : Option Text → Text
text_or_empty none = []
text_or_empty (some t) = t

-- `category or intent.merchant_category or ""`
abbrev first_text : Option Text → Option Text → Text
first_text none other = text_or_empty other
first_text (some t) other = if is_empty t then text_or_empty other else t

abbrev pub category_of : PaymentIntent → Option Text → Option Text
category_of intent category = or_none (lower (strip (first_text category intent.merchant_category)))

abbrev pub region_of : PaymentIntent → Option Text
region_of intent = or_none (upper (strip (text_or_empty intent.region)))

abbrev pub instrument_of : PaymentIntent → Option Text
instrument_of intent = or_none (lower (strip (text_or_empty intent.instrument_class)))

-- `x and x in denied`
abbrev pub is_denied : Option Text → List Text → Bool
is_denied none denied = false
is_denied (some t) denied = elem t denied

abbrev is_in : Option Text → List Text → Bool
is_in none allowed = false
is_in (some t) allowed = elem t allowed

-- `allowed is not None and x not in allowed`
abbrev pub is_outside : Option Text → Option (List Text) → Bool
is_outside t none = false
is_outside t (some allowed) = not (is_in t allowed)

abbrev pub reason_if : Bool → Reason → List Reason
reason_if true r = r ∷ []
reason_if false r = []

-- The two tests of one attribute.
abbrev pub screened : Option Text → List Text → Option (List Text) → Reason → Reason → List Reason
screened t denied allowed r q =
    reason_if (is_denied t denied) r ++ reason_if (is_outside t allowed) q

abbrev pub weekday_reasons : Option (List ℕ) → Option Timestamp → List Reason
weekday_reasons none at = []
weekday_reasons (some days) none = request_time_required ∷ []
weekday_reasons (some days) (some at) = reason_if (not (elem at.weekday days)) weekday_not_allowed

abbrev pub window_reasons : Option ℕ → Option ℕ → Option Timestamp → List Reason
window_reasons none none at = []
window_reasons (some start) end none = request_time_required ∷ []
window_reasons none (some end) none = request_time_required ∷ []
window_reasons (some start) end (some at) =
    reason_if (not (time_in_window at.time (some start) end)) time_window_not_allowed
window_reasons none (some end) (some at) =
    reason_if (not (time_in_window at.time none (some end))) time_window_not_allowed

-- Everything that `evaluate_with_trace` puts on its list of reasons.
abbrev pub denials : SpendingPolicy → PaymentIntent → Option Text → List Reason
denials p intent category =
    reason_if (ltb_ℤ p.per_transaction_limit intent.amount.value) amount_exceeds_transaction_limit
    ++ screened (some (upper (strip intent.amount.currency))) p.denied_currencies
        p.allowed_currencies currency_denied currency_not_allowed
    ++ screened (category_of intent category) p.denied_categories p.allowed_categories
        category_denied category_not_allowed
    ++ screened (some (lower (strip intent.merchant_domain))) p.denied_domains p.allowed_domains
        merchant_domain_denied merchant_domain_not_allowed
    ++ screened (region_of intent) p.denied_regions p.allowed_regions region_denied
        region_not_allowed
    ++ screened (instrument_of intent) p.denied_instrument_classes p.allowed_instrument_classes
        instrument_class_denied instrument_class_not_allowed
    ++ weekday_reasons p.allowed_weekdays intent.requested_at
    ++ window_reasons p.start_time p.end_time intent.requested_at

abbrev pub is_above : ℤ → Option ℤ → Bool
is_above amount none = false
is_above amount (some bound) = ltb_ℤ bound amount

abbrev traced : SpendingPolicy → Option Text → Decision → List Reason → PolicyDecision
traced p version decision reasons = record {
  decision = decision;
  policy_version = version;
  reasons = reasons;
  evaluated_rules = amount_within p.per_transaction_limit ∷ currency_in p.allowed_currencies ∷ [];
}

-- `evaluate_with_trace` once its list of reasons is complete.
abbrev pub decide_on : SpendingPolicy → List Reason → ℤ → Option Text → PolicyDecision
decide_on p (r ∷ rs) amount version = traced p version Decision.deny (r ∷ rs)
decide_on p [] amount version =
    if is_above amount p.approval_above
    then traced p version Decision.require_approval (amount_requires_approval ∷ [])
    else if is_above amount p.notify_above
    then traced p version Decision.allow_notify (amount_requires_notification ∷ [])
    else traced p version Decision.allow_auto (policy_allowed ∷ [])

abbrev unconfigured : Option Text → PolicyDecision
unconfigured version = record {
  decision = Decision.deny;
  policy_version = version;
  reasons = policy_limit_not_configured ∷ [];
  evaluated_rules = limit_configured ∷ [];
}

-- `SpendingPolicy.evaluate_with_trace`
unfoldable pub evaluate_with_trace :
    SpendingPolicy → PaymentIntent → Option Text → Option Text → PolicyDecision
evaluate_with_trace p intent category version =
    if leb_ℤ p.per_transaction_limit (pos 0)
    then unconfigured version
    else decide_on p (denials p intent category) intent.amount.value version

-- `SpendingPolicy.evaluate`
unfoldable pub evaluate : SpendingPolicy → PaymentIntent → Option Text → Decision
evaluate p intent category = (evaluate_with_trace p intent category none).decision
