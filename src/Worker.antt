-- ===== src/Worker.antt =====
-- reference/implementation/src/agent_pay/worker.py
pub mod Keeping
mod Tests
use agent_pay.Prelude.{
  ℕ, ℤ, Text, ◌==◌, ℕ_eq, Bool, true, false, not, ◌&&◌, Option, none, some, lookup, find_last,
  Result, ok, err,
}
use agent_pay.Prelude.Errors.{Error.value_error}
use agent_pay.Prelude.Exec.{Exec, pure, gets, or_raise, choose, ◌>>=◌, ◌>>◌, update, raise_if}
use agent_pay.Provider.{PaymentProvider, ProviderOutcome}
use agent_pay.PaymentRepository.{create_provider_operation, update_status}
use agent_pay.Orchestrator.{Execution, charge_order, finalize}
use agent_pay.Lifecycle.{Accounts}
use agent_pay.Store.{
  Db, Payment, PaymentRequest, ProviderOperation, OperationType, OperationType_eq, OperationStatus,
  Status, Key, plain, KeyKind, Session, on_db, on_provider, unit_of_work,
}

abbrev request_of : Option Payment → Db → Option (Payment × PaymentRequest)
request_of none db = none
request_of (some p) db = elim (lookup p.payment_request_id db.payment_requests) [
  | none ↦ none
  | some r ↦ some (p, r)
]

-- The first unit of work of `process_one`.
unfoldable pub begin : ℕ → Accounts → Exec Db Execution
begin payment to = do
  found ← gets (λ db. request_of (lookup payment db.payments) db)
  row ← or_raise found (value_error "payment not found")
  reservation ←
      or_raise row.1.budget_reservation_id (value_error "payment has no budget reservation")
  _ ← create_provider_operation payment OperationType.charge (plain KeyKind.payment_charge payment)
  update_status payment Status.processing none
  pure (record {
    payment = payment;
    request = row.0.payment_request_id;
    reservation = reservation;
    amount = row.0.amount;
    currency = row.0.currency;
    to = to;
  })

abbrev pub durable_outcome : OperationStatus → Option ProviderOutcome
durable_outcome OperationStatus.succeeded = some ProviderOutcome.succeeded
durable_outcome OperationStatus.failed = some ProviderOutcome.failed
durable_outcome OperationStatus.unknown = some ProviderOutcome.unknown
durable_outcome OperationStatus.pending = none

-- The last charge operation of the payment, when it has an outcome.
abbrev pub recorded : Option (ℕ × ProviderOperation) → Option (ProviderOutcome × Option Text)
recorded none = none
recorded (some (id, o)) = elim (durable_outcome o.status) [
  | none ↦ none
  | some out ↦ some (out, o.provider_reference)
]

abbrev pub last_charge : ℕ → Db → Option (ℕ × ProviderOperation)
last_charge payment db =
    find_last (λ o. o.payment_id == payment && o.operation_type == OperationType.charge)
      db.provider_operations

-- `getattr(provider, "reference_for", None)`, and its call where the provider has it.
abbrev reference : {P : Type 0} → Option (Key → P → Option Text) → Key → P → Option Text
reference none key s = none
reference (some f) key s = f key s

module _ {P : Type 0} (provider : PaymentProvider P ℕ Key)
    (reference_for : Option (Key → P → Option Text)) where
  -- The provider is called where the database records no outcome.
  unfoldable pub outcome_of :
      Option (ProviderOutcome × Option Text)
      → Execution
      → Exec (Session P) (ProviderOutcome × Option Text)
  outcome_of (some out) x = pure out
  outcome_of none x = do
    outcome ← on_provider (provider.charge (charge_order x.payment x.amount x.currency))
    text ←
        on_provider (λ s. (reference reference_for (plain KeyKind.payment_charge x.payment) s, s))
    pure (outcome, text)

  -- `process_one`
  unfoldable pub process_one : ℕ → Accounts → Exec (Session P) Status
  process_one payment to = do
    x ← unit_of_work (on_db (begin payment to))
    durable ← on_db (gets (last_charge payment))
    out ← outcome_of (recorded durable) x
    unit_of_work (on_db (finalize x out.0 out.1))
