-- ===== src/Service/Tests.antt =====
-- Instances for the payment service.
use agent_pay.Prelude.{
  ℤ, pos, codes, some, none, ◌∷◌, [], ◌≡◌, refl, ok, Text, lookup, insert, list_eq, List_eq, ℕ_eq,
  false, arith, int_laws, upper, lower, strip, or_none,
}
use agent_pay.Prelude.Exec.Keeps.{Ensures}
use agent_pay.Domain.{Decision, PaymentStatus, PaymentIntent, fingerprint}
use agent_pay.Policy.{SpendingPolicy, evaluate, evaluate_with_trace}
use agent_pay.Provider.{PaymentProvider, ProviderOutcome, MockProvider, mock, run_mock}
use agent_pay.Service.{
  PaymentService, charge_order, same_fingerprint, result, create_payment, charge_key,
}
use agent_pay.Service.Replays.{create_payment-twice}
use agent_pay.Service.Budgets.{
  charged, concluded, unpermitted, create_payment-charges, create_payment-withholds,
}
use agent_pay.Policy.Decisions.{Permits}
use agent_pay.Samples.{usd, ten}

abbrev no_reference : Text → Text
no_reference k = []

abbrev provider : PaymentProvider (MockProvider Text Text) Text Text
provider = mock no_reference

abbrev limited_to : ℤ → SpendingPolicy
limited_to most = record {
  per_transaction_limit = most;
  notify_above = none;
  approval_above = none;
  allowed_categories = none;
  denied_categories = [];
  allowed_domains = none;
  denied_domains = [];
  allowed_currencies = none;
  denied_currencies = [];
  allowed_regions = none;
  denied_regions = [];
  allowed_instrument_classes = none;
  denied_instrument_classes = [];
  allowed_weekdays = none;
  start_time = none;
  end_time = none;
}

abbrev new_mock : MockProvider Text Text
new_mock = record { outcome = ProviderOutcome.succeeded; calls = 0; results = []; references = [] }

abbrev called_mock : MockProvider Text Text
called_mock = record {
  outcome = ProviderOutcome.succeeded;
  calls = 1;
  results = (charge_key (codes "p"), ProviderOutcome.succeeded) ∷ [];
  references = (charge_key (codes "p"), []) ∷ [];
}

abbrev service : ℤ → PaymentService (MockProvider Text Text)
service most = record {
  policy = limited_to most;
  budget = record { limit = pos 500000; consumed = pos 0; reserved = pos 0 };
  provider = new_mock;
  idempotency = [];
}

abbrev intent : Text → PaymentIntent
intent payment = record {
  payment_id = payment;
  agent_id = codes "a";
  amount = record { value = ten; currency = usd };
  merchant_domain = codes "shop";
  idempotency_key = codes "k";
  merchant_category = none;
  region = none;
  instrument_class = none;
  requested_at = none;
}

create_payment-twice_example :
    Ensures
      (λ r t. create_payment provider none (intent (codes "p")) t ≡ (ok r, t))
      (create_payment provider none (intent (codes "p")) (service ten))
create_payment-twice_example = create_payment-twice provider none (intent (codes "p")) (service ten)

allowed : evaluate (limited_to ten) (intent (codes "p")) none ≡ Decision.allow_auto
unfolding evaluate evaluate_with_trace upper lower strip or_none
allowed = refl

too_much : ¬ Permits (limited_to (pos 1)) (intent (codes "p")) none
too_much h = let within = h.within in absurd (omega arith)

nothing_yet : lookup (codes "k") (service (pos 1)).idempotency ≡ none
unfolding lookup
nothing_yet = refl

create_payment-withholds_example :
    create_payment provider none (intent (codes "p")) (service (pos 1)) ≡ (
      ok (result (intent (codes "p")) PaymentStatus.failed Decision.deny),
      concluded provider
          (intent (codes "p"))
          (service (pos 1))
          (result (intent (codes "p")) PaymentStatus.failed Decision.deny)
          (service (pos 1)).budget
          new_mock,
    )
create_payment-withholds_example =
    create_payment-withholds provider (intent (codes "p")) (service (pos 1)) Decision.deny
      nothing_yet (unpermitted too_much)

abbrev recorded : PaymentService (MockProvider Text Text)
recorded = record (service ten) {
  idempotency =
      (
        codes "k",
        (
          fingerprint (intent (codes "p")),
          result (intent (codes "p")) PaymentStatus.succeeded Decision.allow_auto,
        ),
      )
      ∷ [];
}

recorded_key :
    lookup (codes "k") recorded.idempotency
    ≡ some (
      fingerprint (intent (codes "p")),
      result (intent (codes "p")) PaymentStatus.succeeded Decision.allow_auto,
    )
unfolding lookup list_eq
recorded_key = refl

other_payment :
    same_fingerprint (fingerprint (intent (codes "p"))) (fingerprint (intent (codes "q"))) ≡ false
unfolding list_eq
other_payment = refl

charged_once :
    provider.charge (charge_order (intent (codes "p"))) new_mock
    ≡ (ProviderOutcome.succeeded, called_mock)
unfolding run_mock lookup insert
charged_once = refl

create_payment-charges_example : create_payment provider none (intent (codes "p")) (service ten) ≡ (
  ok (result (intent (codes "p")) PaymentStatus.succeeded Decision.allow_auto),
  concluded provider
      (intent (codes "p"))
      (service ten)
      (result (intent (codes "p")) PaymentStatus.succeeded Decision.allow_auto)
      (charged ProviderOutcome.succeeded ten (service ten).budget)
      called_mock,
)
create_payment-charges_example =
    create_payment-charges provider (intent (codes "p")) (service ten) Decision.allow_auto
      ProviderOutcome.succeeded called_mock nothing_yet allowed refl (omega arith) (omega int_laws)
      (omega arith) charged_once
