-- ===== src/Lifecycle.antt =====
-- reference/implementation/src/agent_pay/lifecycle.py: capture, void and refund.
pub mod Keeping
pub mod Posted
pub mod Covered
pub mod Stored
pub mod Capture
pub mod Refund
pub mod Calls
mod Tests
use agent_pay.Prelude.{
  ℕ, ◌/◌, ◌%◌, ℤ, pos, pos_part, ◌+ℤ◌, ◌-ℤ◌, ltb_ℤ, leb_ℤ, eq_ℤ, nat_eq, Text, strip, upper, ◌==◌,
  List_eq, ℕ_eq, Bool, true, false, not, ◌&&◌, ◌||◌, Option, none, some, lookup, modify, append_row,
  find_row, sum_rows, List, [], ◌∷◌, Result, ok, err, if◌then◌else◌,
}
use agent_pay.Prelude.Errors
use agent_pay.Prelude.Errors.{Error.value_error, Error.integrity_error}
use agent_pay.Prelude.Exec.{Exec, pure, gets, lift, or_raise, choose, ◌>>=◌, ◌>>◌, update, raise_if}
use agent_pay.Provider.{
  PaymentProvider, ProviderOutcome, Order, ProviderOutcome.succeeded, ProviderOutcome.failed,
  ProviderOutcome.unknown,
}
use agent_pay.PaymentRepository.{update_status, create_provider_operation}
use agent_pay.Journals.{Draft, post_journal}
use agent_pay.Store.{
  Db, Payment, Transaction, TransactionStatus, TransactionStatus_eq, OperationType,
  OperationType_eq, Status, Status_eq, Key, Key_eq, plain, detailed, KeyKind, Spelled, Journal,
  ReferenceType, Side, Session, on_db, on_provider, fresh_id,
}

-- `_amount_minor`: an amount counts ten-thousandths, so it is a whole number of cents when it is a
-- multiple of 100.
unfoldable pub amount_minor : ℤ → Result ℤ
amount_minor amount =
    if leb_ℤ amount (pos 0)
    then err (value_error "operation amount must be positive")
    else if not (nat_eq (pos_part amount % 100) 0)
    then err (value_error "reference payment rails support at most two decimal places")
    else ok (pos (pos_part amount / 100))

abbrev pub normalized : Text → Text
normalized currency = upper (strip currency)

-- `_validate_operation_amount`
unfoldable pub validate_operation_amount : ℤ → Text → ℤ → Text → Result (ℤ × Text)
validate_operation_amount requested requested_currency amount currency =
    if leb_ℤ requested (pos 0)
    then err (value_error "operation amount must be positive")
    else if not (eq_ℤ requested amount)
    then err (value_error "operation amount does not match payment amount")
    else if not (normalized requested_currency == normalized currency)
    then err (value_error "operation currency does not match payment currency")
    else ok (requested, normalized requested_currency)

-- `_refund_replay_status`
unfoldable pub refund_replay_status : TransactionStatus → ℤ → Option Status
refund_replay_status TransactionStatus.posted refundable =
    some (if eq_ℤ refundable (pos 0) then Status.refunded else Status.succeeded)
refund_replay_status TransactionStatus.failed refundable = some Status.refund_failed
refund_replay_status TransactionStatus.pending refundable = none

-- `_validate_refund_amount`
unfoldable pub validate_refund_amount : Spelled → Text → Text → Result (Spelled × Text)
validate_refund_amount requested requested_currency currency =
    if leb_ℤ requested.value (pos 0)
    then err (value_error "operation amount must be positive")
    else if not (normalized requested_currency == normalized currency)
    then err (value_error "operation currency does not match payment currency")
    else ok (requested, normalized requested_currency)

-- The columns that a caller of `_create_transaction` sets.
abbrev pub new_transaction :
    ℕ → OperationType → TransactionStatus → ℤ → Text → Key → ℕ → Transaction
new_transaction payment operation_type status amount currency key now = record {
  payment_id = payment;
  operation_type = operation_type;
  status = status;
  amount = amount;
  currency = currency;
  original_transaction_id = none;
  external_reference = none;
  idempotency_key = key;
  posted_at = elim (status == TransactionStatus.posted) [ true ↦ some now | false ↦ none ];
}

-- The INSERT of `_create_transaction`, with CHECK (amount > 0).
unfoldable pub insert_transaction :
    Option (ℕ × Transaction) → ℕ → OperationType → TransactionStatus → ℤ → Text → Key → Exec Db ℕ
insert_transaction (some (id, existing)) payment operation_type status amount currency key = pure id
insert_transaction none payment operation_type status amount currency key = do
  raise_if (leb_ℤ amount (pos 0)) (integrity_error "transactions_amount_check")
  id ← fresh_id
  update (λ db. record db {
    transactions =
        append_row id (new_transaction payment operation_type status amount currency key db.now)
          db.transactions;
  })
  pure id

abbrev pub transaction_at : Key → Db → Option (ℕ × Transaction)
transaction_at key db = find_row (λ t. t.idempotency_key == key) db.transactions

-- `_create_transaction`
unfoldable pub create_transaction :
    ℕ → OperationType → TransactionStatus → ℤ → Text → Key → Exec Db ℕ
create_transaction payment operation_type status amount currency key = do
  existing ← gets (transaction_at key)
  insert_transaction existing payment operation_type status amount currency key

abbrev pub draft : ℕ → Side → ℤ → Text → Draft
draft account side amount currency = record {
  ledger_account_id = account;
  side = side;
  amount = amount;
  currency = currency;
}

abbrev pub transfer : ℕ → ℕ → ℤ → Text → List Draft
transfer debited credited amount currency =
    draft debited Side.debit amount currency ∷ draft credited Side.credit amount currency ∷ []

abbrev pub journal_of : Text → ℕ → Key → Option Text → Journal
journal_of currency transaction key correlation = record {
  currency = currency;
  reference_type = ReferenceType.transaction;
  reference_id = transaction;
  idempotency_key = key;
  correlation_id = correlation;
}

-- What the ledger accounts of a call are.
pub record Accounts : Type 0 where
  pub customer : ℕ
  pub clearing : ℕ
  pub correlation : Option Text

-- `capture` after the call of the provider.
unfoldable pub settle_capture : ProviderOutcome → ℕ → ℤ → Text → Accounts → Exec Db Status
settle_capture unknown payment amount currency to = do
  update_status payment Status.unknown_external_outcome none
  pure Status.unknown_external_outcome
settle_capture failed payment amount currency to = do
  update_status payment Status.failed none
  _ ←
      create_transaction payment OperationType.capture TransactionStatus.failed amount currency
        (plain KeyKind.tx_capture_failed payment)
  pure Status.failed
settle_capture succeeded payment amount currency to = do
  id ←
      create_transaction payment OperationType.capture TransactionStatus.posted amount currency
        (plain KeyKind.tx_capture payment)
  _ ←
      post_journal (journal_of currency id (plain KeyKind.payment_capture payment) to.correlation)
        (transfer to.customer to.clearing amount currency)
  update_status payment Status.succeeded none
  pure Status.succeeded

-- `void` after the call of the provider.
unfoldable pub settle_void : ProviderOutcome → ℕ → ℤ → Text → Exec Db Status
settle_void unknown payment amount currency = do
  update_status payment Status.unknown_external_outcome none
  pure Status.unknown_external_outcome
settle_void failed payment amount currency = do
  update_status payment Status.void_failed none
  _ ←
      create_transaction payment OperationType.void TransactionStatus.failed amount currency
        (plain KeyKind.tx_void_failed payment)
  pure Status.void_failed
settle_void succeeded payment amount currency = do
  _ ←
      create_transaction payment OperationType.void TransactionStatus.posted amount currency
        (plain KeyKind.tx_void payment)
  update_status payment Status.voided none
  pure Status.voided

-- `UPDATE transactions SET status=... WHERE id=transaction`
unfoldable pub set_transaction : ℕ → (ℕ → Transaction → Transaction) → Exec Db (Unit {0})
set_transaction transaction f =
    update (λ db. record db { transactions = modify transaction (f db.now) db.transactions })

abbrev pub marked_failed : ℕ → Transaction → Transaction
marked_failed now t = record t { status = TransactionStatus.failed }

abbrev pub marked_posted : ℕ → Transaction → Transaction
marked_posted now t = record t { status = TransactionStatus.posted; posted_at = some now }

-- `refund` after the call of the provider; `refundable` is captured less refunded.
unfoldable pub settle_refund :
    ProviderOutcome → ℕ → ℕ → ℤ → Text → Key → ℤ → Accounts → Exec Db Status
settle_refund unknown payment transaction amount currency key refundable to = do
  update_status payment Status.unknown_external_outcome none
  pure Status.unknown_external_outcome
settle_refund failed payment transaction amount currency key refundable to = do
  set_transaction transaction marked_failed
  update_status payment Status.refund_failed none
  pure Status.refund_failed
settle_refund succeeded payment transaction amount currency key refundable to = do
  set_transaction transaction marked_posted
  _ ←
      post_journal (journal_of currency transaction key to.correlation)
        (transfer to.clearing to.customer amount currency)
  update_status payment
      (if eq_ℤ (refundable -ℤ amount) (pos 0) then Status.refunded else Status.succeeded) none
  pure Status.refunded

-- COALESCE(SUM(amount),0) of a payment's posted transactions of one type.
abbrev pub posted_sum : ℕ → OperationType → Db → ℤ
posted_sum payment operation_type db =
    sum_rows
      (λ t.
        t.payment_id == payment
        && t.operation_type == operation_type
        && t.status == TransactionStatus.posted)
      (λ t. t.amount) db.transactions

abbrev pub can_refund : Status → Bool
can_refund status =
    status == Status.succeeded || status == Status.refund_failed || status == Status.refunded

abbrev pub replay : Option (ℕ × Transaction) → ℤ → Option Status
replay none refundable = none
replay (some (id, t)) refundable = refund_replay_status t.status refundable

-- A repeated `capture` or `void`.
unfoldable pub repeated : {P : Type 0} → Status → ℤ → Text → Payment → Exec (Session P) Status
repeated status amount currency row = do
  _ ← lift (validate_operation_amount amount currency row.amount row.currency)
  pure status

module _ {P : Type 0} (provider : PaymentProvider P ℕ Key) where
  abbrev order : ℕ → ℤ → Text → Key → Order ℕ Key
  order payment minor currency key = record {
    payment_id = payment;
    amount_minor = minor;
    currency = currency;
    idempotency_key = key;
  }

  -- `capture` of a payment that is not captured yet.
  unfoldable pub capture_new : ℕ → ℤ → Text → Accounts → Payment → Exec (Session P) Status
  capture_new payment amount currency to row = do
    raise_if (not (row.status == Status.authorized))
        (value_error "payment is not authorized for capture")
    checked ← lift (validate_operation_amount amount currency row.amount row.currency)
    _ ← on_db (
        create_provider_operation payment OperationType.capture
          (plain KeyKind.payment_capture payment))
    minor ← lift (amount_minor checked.0)
    outcome ←
        on_provider
          (provider.capture (order payment minor checked.1 (plain KeyKind.payment_capture payment)))
    on_db (settle_capture outcome payment checked.0 checked.1 to)

  -- `capture`
  unfoldable pub capture : ℕ → ℤ → Text → Accounts → Exec (Session P) Status
  capture payment amount currency to = do
    found ← on_db (gets (λ db. lookup payment db.payments))
    row ← or_raise found (value_error "payment not found")
    choose (row.status == Status.succeeded) (repeated Status.succeeded amount currency row)
        (capture_new payment amount currency to row)

  -- `void` of a payment that is not voided yet.
  unfoldable pub void_new : ℕ → ℤ → Text → Payment → Exec (Session P) Status
  void_new payment amount currency row = do
    raise_if (not (row.status == Status.authorized))
        (value_error "only an authorized payment can be voided")
    checked ← lift (validate_operation_amount amount currency row.amount row.currency)
    on_db (update_status payment Status.void_requested none)
    _ ←
        on_db (
          create_provider_operation payment OperationType.void (plain KeyKind.payment_void payment))
    minor ← lift (amount_minor checked.0)
    outcome ←
        on_provider
          (provider.void (order payment minor checked.1 (plain KeyKind.payment_void payment)))
    on_db (settle_void outcome payment checked.0 checked.1)

  -- `void`
  unfoldable pub void : ℕ → ℤ → Text → Exec (Session P) Status
  void payment amount currency = do
    found ← on_db (gets (λ db. lookup payment db.payments))
    row ← or_raise found (value_error "payment not found")
    choose (row.status == Status.voided) (repeated Status.voided amount currency row)
        (void_new payment amount currency row)

  -- `refund` once nothing is there to replay.
  unfoldable pub refund_new : ℕ → Spelled → Text → Key → ℤ → Accounts → Exec (Session P) Status
  refund_new payment amount currency key refundable to = do
    raise_if (ltb_ℤ refundable amount.value)
        (value_error "refund amount exceeds refundable captured amount")
    on_db (update_status payment Status.refund_processing none)
    _ ← on_db (create_provider_operation payment OperationType.refund key)
    id ← on_db (
        create_transaction payment OperationType.refund TransactionStatus.pending amount.value
          currency (detailed KeyKind.tx_refund payment amount currency))
    minor ← lift (amount_minor amount.value)
    outcome ← on_provider (provider.refund (order payment minor currency key))
    on_db (settle_refund outcome payment id amount.value currency key refundable to)

  unfoldable pub refund_or_replay :
      Option Status → ℕ → Spelled → Text → Key → ℤ → Accounts → Exec (Session P) Status
  refund_or_replay (some status) payment amount currency key refundable to = pure status
  refund_or_replay none payment amount currency key refundable to =
      refund_new payment amount currency key refundable to

  -- `refund`
  unfoldable pub refund : ℕ → Spelled → Text → Accounts → Exec (Session P) Status
  refund payment amount currency to = do
    found ← on_db (gets (λ db. lookup payment db.payments))
    locked ← or_raise found (value_error "payment not found")
    raise_if (not (can_refund locked.status))
        (value_error "only a captured payment can be refunded")
    checked ← lift (validate_refund_amount amount currency locked.currency)
    existing ←
        on_db (gets (transaction_at (detailed KeyKind.tx_refund payment checked.0 checked.1)))
    refundable ← on_db (
        gets (λ db.
          posted_sum payment OperationType.capture db
          -ℤ posted_sum payment OperationType.refund db))
    refund_or_replay (replay existing refundable) payment checked.0 checked.1
        (detailed KeyKind.payment_refund payment amount currency) refundable to
