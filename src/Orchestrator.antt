-- ===== src/Orchestrator.antt =====
-- reference/implementation/src/agent_pay/orchestrator.py
pub mod Finalize
mod Tests
use agent_pay.Prelude.{
  ℕ, ◌/◌, ℤ, pos, pos_part, neg_part, ◌-ℤ◌, eq_ℤ, Text, strip, upper, ◌==◌, List_eq, ℕ_eq, Bool,
  true, false, not, ◌&&◌, ◌||◌, Option, none, some, lookup, modify, modify_where, append_row,
  find_row, List, Result, ok, err, if◌then◌else◌,
}
use agent_pay.Prelude.Errors.{Error.value_error, Error.permission_error}
use agent_pay.Prelude.Exec.{
  Exec, pure, raise, gets, or_raise, choose, ◌>>=◌, ◌>>◌, update, raise_if,
}
use agent_pay.Provider.{
  PaymentProvider, ProviderOutcome, Order, ProviderOutcome.succeeded, ProviderOutcome.failed,
  ProviderOutcome.unknown,
}
use agent_pay.BudgetRepository.{reserve, consume, release}
use agent_pay.PaymentRepository.{coalesce, update_status}
use agent_pay.Journals.{post_journal}
use agent_pay.Outbox.{enqueue}
use agent_pay.Lifecycle.{
  transaction_at, new_transaction, transfer, journal_of, Accounts, set_transaction,
}
use agent_pay.Store.{
  Db, Payment, PaymentRequest, Evidence, ProviderOperation, Transaction, TransactionStatus,
  OperationType, OperationType_eq, OperationStatus, Status, Status_eq, EventType, Key, plain,
  KeyKind, fresh_id,
}

-- The rows that `prepare` reads together.
pub record Bound : Type 0 where
  pub payment : Payment
  pub request : PaymentRequest
  pub evidence : Option Evidence

abbrev evidence_at : Option ℕ → Db → Option Evidence
evidence_at none db = none
evidence_at (some id) db = lookup id db.authorization_evidence

abbrev pub join : Option Payment → Option PaymentRequest → ℕ → Db → Option Bound
join none r request db = none
join (some p) none request db = none
join (some p) (some r) request db =
    if p.payment_request_id == request
    then some
        (record { payment = p; request = r; evidence = evidence_at r.authorization_evidence_id db })
    else none

unfoldable pub bound_rows : ℕ → ℕ → Db → Option Bound
bound_rows payment request db =
    join (lookup payment db.payments) (lookup request db.payment_requests) request db

-- verification_status = 'VERIFIED'
abbrev pub is_verified : Option Evidence → Bool
is_verified none = false
is_verified (some e) = e.verified

abbrev pub is_terminal : Status → Bool
is_terminal status =
    status == Status.succeeded
    || status == Status.failed
    || status == Status.cancelled
    || status == Status.voided
    || status == Status.refunded

-- `prepare` with what `reserve` returns.
unfoldable pub start : Option ℕ → ℕ → ℕ → Option Text → Exec Db ℕ
start none payment request correlation = do
  update_status payment Status.failed none
  _ ← enqueue EventType.budget_insufficient payment correlation
  raise (value_error "budget insufficient")
start (some reservation) payment request correlation = do
  update (λ db. record db {
    payment_requests =
        modify request (λ r. record r { budget_reservation_id = some reservation })
          db.payment_requests;
  })
  update_status payment Status.processing none
  _ ← enqueue (EventType.payment_started reservation) payment correlation
  pure reservation

-- `prepare`
unfoldable pub prepare : ℕ → ℕ → ℕ → ℤ → Text → Option Text → Exec Db ℕ
prepare payment request budget amount currency correlation = do
  found ← gets (bound_rows payment request)
  bound ← or_raise found (value_error "payment and payment request binding is invalid")
  raise_if (not (is_verified bound.evidence))
      (permission_error "verified authorization evidence is required before execution")
  raise_if
      (not (eq_ℤ bound.request.amount amount)
        || not (upper (strip bound.request.currency) == upper currency))
      (value_error "execution amount/currency does not match payment intent")
  raise_if (is_terminal bound.payment.status) (value_error "payment is already terminal")
  reservation ← reserve budget request amount
  start reservation payment request correlation

-- `int(amount * Decimal("100"))`, which cuts the cents' fraction off.
abbrev pub cents : ℤ → ℤ
cents amount = pos (pos_part amount / 100) -ℤ pos (neg_part amount / 100)

abbrev pub charge_order : ℕ → ℤ → Text → Order ℕ Key
charge_order payment amount currency = record {
  payment_id = payment;
  amount_minor = cents amount;
  currency = currency;
  idempotency_key = plain KeyKind.payment_charge payment;
}

-- `execute_external`
unfoldable pub execute_external :
    {P : Type 0} → PaymentProvider P ℕ Key → ℕ → ℤ → Text → P → ProviderOutcome × P
execute_external provider payment amount currency =
    provider.charge (charge_order payment amount currency)

abbrev is_charge_of : ℕ → ProviderOperation → Bool
is_charge_of payment o = o.payment_id == payment && o.operation_type == OperationType.charge

-- The UPDATE of the payment's charge operations.
unfoldable pub update_charges : ℕ → (ℕ → ProviderOperation → ProviderOperation) → Exec Db (Unit {0})
update_charges payment f = update (λ db. record db {
  provider_operations = modify_where (is_charge_of payment) (f db.now) db.provider_operations;
})

abbrev ended : OperationStatus → Option Text → ℕ → ProviderOperation → ProviderOperation
ended status reference now o = record o {
  status = status;
  provider_reference = coalesce reference o.provider_reference;
  completed_at = some now;
}

abbrev or_now : Option ℕ → ℕ → Option ℕ
or_now none now = some now
or_now (some at) now = some at

-- INSERT INTO transactions ... ON CONFLICT (idempotency_key) DO UPDATE
unfoldable pub upsert_capture : Option (ℕ × Transaction) → ℕ → ℤ → Text → Exec Db ℕ
upsert_capture none payment amount currency = do
  id ← fresh_id
  update (λ db. record db {
    transactions =
        append_row id
          (new_transaction payment OperationType.capture TransactionStatus.posted amount currency
            (plain KeyKind.tx_capture payment) db.now)
          db.transactions;
  })
  pure id
upsert_capture (some (id, existing)) payment amount currency = do
  set_transaction id
      (λ now t. record t { status = TransactionStatus.posted; posted_at = or_now t.posted_at now })
  pure id

-- What a call of `finalize` is about.
pub record Execution : Type 0 where
  pub payment : ℕ
  pub request : ℕ
  pub reservation : ℕ
  pub amount : ℤ
  pub currency : Text
  pub to : Accounts

-- `finalize` from the test of the outcome.
unfoldable pub conclude : ProviderOutcome → Execution → Option Text → Exec Db Status
conclude unknown x reference = do
  update_charges x.payment (λ now o. record o { status = OperationStatus.unknown })
  update_status x.payment Status.unknown_external_outcome reference
  _ ← enqueue (EventType.payment_outcome_unknown x.reservation) x.payment x.to.correlation
  pure Status.unknown_external_outcome
conclude failed x reference = do
  update_charges x.payment (ended OperationStatus.failed reference)
  release x.reservation
  update_status x.payment Status.failed reference
  _ ← enqueue (EventType.payment_failed x.reservation) x.payment x.to.correlation
  pure Status.failed
conclude succeeded x reference = do
  update_charges x.payment (ended OperationStatus.succeeded reference)
  consume x.reservation
  existing ← gets (transaction_at (plain KeyKind.tx_capture x.payment))
  id ← upsert_capture existing x.payment x.amount x.currency
  _ ←
      post_journal
        (journal_of x.currency id (plain KeyKind.payment_capture x.payment) x.to.correlation)
        (transfer x.to.customer x.to.clearing x.amount x.currency)
  update_status x.payment Status.succeeded reference
  _ ← enqueue (EventType.payment_succeeded x.amount x.currency) x.payment x.to.correlation
  pure Status.succeeded

-- The status that an outcome leads to.
abbrev pub status_of : ProviderOutcome → Status
status_of succeeded = Status.succeeded
status_of failed = Status.failed
status_of unknown = Status.unknown_external_outcome

abbrev pub is_open : Status → Bool
is_open status = status == Status.processing || status == Status.unknown_external_outcome

abbrev pub is_bound : ℕ → Option Payment → Option Payment
is_bound request none = none
is_bound request (some p) = if p.payment_request_id == request then some p else none

-- `finalize`
unfoldable pub finalize : Execution → ProviderOutcome → Option Text → Exec Db Status
finalize x outcome reference = do
  found ← gets (λ db. is_bound x.request (lookup x.payment db.payments))
  row ← or_raise found (value_error "payment and payment request binding is invalid")
  raise_if (not (eq_ℤ row.amount x.amount) || not (upper (strip row.currency) == upper x.currency))
      (value_error "finalization amount/currency does not match payment")
  choose (row.status == status_of outcome) (pure (status_of outcome)) (do
    raise_if (not (is_open row.status))
        (value_error "payment is not in an executable finalization state")
    conclude outcome x reference)
