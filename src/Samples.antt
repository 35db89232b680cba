-- ===== src/Samples.antt =====
-- Rows and databases for the runs and the instances of the theorems.
use agent_pay.Prelude.{
  ℕ, ℤ, pos, Text, codes, none, some, [], ◌∷◌, lookup, ◌≡◌, refl, arith, ℕ_eq, Bool-cases, nat_eq,
  inl, inr, sum_rows, true, int_laws,
}
use agent_pay.Intact.{Intact}
use agent_pay.BudgetRepository.Accounting.{Covers}
use agent_pay.Provider.{ProviderOutcome, MockProvider, PaymentProvider, mock}
use agent_pay.Lifecycle.{Accounts}
use agent_pay.Json.{Json, Fields, object, field}
use agent_pay.Webhooks.Reading.{Runtime, Delivery}
use agent_pay.Store.{
  ReservationStatus, OperationType, OperationStatus, plain, KeyKind, Db, Payment, PaymentRequest,
  Budget, Status, Key, Key_eq, Session,
}

abbrev pub usd : Text
usd = codes "USD"

-- Ten dollars, in ten-thousandths.
abbrev pub ten : ℤ
ten = pos 100000

abbrev pub to : Accounts
to = record { customer = 51; clearing = 52; correlation = none }

abbrev pub payment : Status → Payment
payment status = record {
  payment_request_id = 2;
  amount = ten;
  currency = usd;
  status = status;
  provider_reference = none;
  provider_operation_id = none;
  completed_at = none;
  updated_at = 0;
}

abbrev pub request : PaymentRequest
request = record {
  account_id = 7;
  agent_id = 8;
  merchant_id = none;
  policy_version_id = none;
  amount = ten;
  currency = usd;
  authorization_evidence_id = some 4;
  budget_id = some 3;
  budget_reservation_id = none;
}

abbrev pub budget : Budget
budget = record {
  account_id = 7;
  policy_id = none;
  active = true;
  currency = usd;
  limit_amount = pos 500000;
  consumed_amount = pos 0;
  reserved_amount = pos 0;
  updated_at = 0;
}

-- One payment of ten dollars in a status, and one budget of fifty.
abbrev pub with_payment : Status → Db
with_payment status = record {
  now = 100;
  next_id = 10;
  payments = (1, payment status) ∷ [];
  payment_requests = (2, request) ∷ [];
  authorization_evidence = (4, record { verified = true }) ∷ [];
  budgets = (3, budget) ∷ [];
  budget_reservations = [];
  provider_operations = [];
  transactions = [];
  ledger_journals = [];
  ledger_postings = [];
  provider_events = [];
  settlements = [];
  reconciliation_records = [];
  outbox_events = [];
  wallets = (61, record { account_id = 7; currency = usd; active = true }) ∷ [];
  ledger_accounts = (51, record { wallet_id = some 61 }) ∷ [];
  payment_provider_accounts =
      (
        62,
        record {
          provider_name = codes "mock";
          currency = usd;
          ledger_account_id = 52;
          active = true;
        },
      )
      ∷ [];
  policies = [];
  policy_versions = [];
  approvals = [];
  merchants = [];
  audit_events = [];
  notifications = [];
}

abbrev pub no_reference : Key → Text
no_reference k = []

abbrev pub approving : MockProvider Key Text
approving = record { outcome = ProviderOutcome.succeeded; calls = 0; results = []; references = [] }

abbrev pub provider : PaymentProvider (MockProvider Key Text) ℕ Key
provider = mock no_reference

abbrev pub session : Status → Session (MockProvider Key Text)
session status = record {
  durable = with_payment status;
  db = with_payment status;
  provider = approving;
}

-- A secret for every provider, no replay window, a body that names a success of the operation with
-- the reference `ref_1`, and one signature for all bodies.
abbrev pub runtime : Runtime
runtime = record {
  getenv = λ key. some (codes "s");
  hmac = λ secret body. codes "00";
  loads = λ body. some (
      object (
        field (codes "event_id") (Json.text body) (
          field (codes "event_type") (Json.text (codes "payment.succeeded")) (
            field (codes "provider_reference") (Json.text (codes "ref_1"))
              (field (codes "pan") (Json.text (codes "4111")) Fields.empty)))));
  to_int = λ text. some (pos 0);
  to_decimal = λ text. some (record { coefficient = ten; places = 4 });
  from_iso_format = λ text. none;
  digest = λ value. [];
}

abbrev pub delivery : Text → Delivery
delivery body = record {
  provider_name = codes "mock";
  body = body;
  signature = some (codes "00");
  correlation_id = none;
}

-- The payment awaits the outcome of a charge, for which ten dollars are reserved.
abbrev pub awaiting : Session (MockProvider Key Text)
awaiting =
    let db = record (with_payment Status.unknown_external_outcome) {
      payment_requests = (2, record request { budget_reservation_id = some 5 }) ∷ [];
      budgets = (3, record budget { reserved_amount = ten }) ∷ [];
      budget_reservations =
          (
            5,
            record {
              budget_id = 3;
              payment_request_id = 2;
              amount = ten;
              currency = usd;
              status = ReservationStatus.reserved;
              consumed_at = none;
              released_at = none;
            },
          )
          ∷ [];
      provider_operations =
          (
            6,
            record {
              payment_id = 1;
              operation_type = OperationType.charge;
              idempotency_key = plain KeyKind.payment_charge 1;
              provider_reference = some (codes "ref_1");
              status = OperationStatus.unknown;
              completed_at = none;
            },
          )
          ∷ [];
    } in
    record { durable = db; db = db; provider = approving }

found_budget :
    (b : ℕ) (row : Budget)
    → lookup b (with_payment Status.requested).budgets ≡ some row
    → row ≡ budget
unfolding lookup
found_budget b row e = elim (Bool-cases (nat_eq 3 b)) [
  | inl here ↦ ground arith
  | inr other ↦ ground arith
]

no_reservations : (b : ℕ) → Covers b [] budget
unfolding sum_rows
no_reservations b = record {
  reserved_sum = refl;
  consumed_sum = refl;
  within_limit = omega int_laws;
}

pub with_payment-Intact : (status : Status) → Intact (with_payment status)
with_payment-Intact status = record {
  books = record { at_journal = λ j. refl };
  budgets = record {
    amounts = tt;
    at_budget = λ b row e. rw (found_budget b row e) (no_reservations b);
  };
}
