-- ===== src/Resolution.antt =====
-- reference/implementation/src/agent_pay/webhook_resolution.py
pub mod Keeping
mod Tests
use agent_pay.Prelude.{
  ℕ, ℤ, pos, leb_ℤ, Text, codes, strip, upper, Eq, ◌==◌, List_eq, ℕ_eq, Bool, true, false, not,
  ◌&&◌, ◌||◌, Option, none, some, lookup, modify, find_row, append_row,
}
use agent_pay.Prelude.Errors.{Error.value_error, Error.permission_error, Error.integrity_error}
use agent_pay.Prelude.Exec.{
  Exec, pure, raise, gets, or_raise, choose, ◌>>=◌, ◌>>◌, update, raise_if,
}
use agent_pay.BudgetRepository.{consume, release}
use agent_pay.PaymentRepository.{coalesce}
use agent_pay.Journals.{post_journal}
use agent_pay.Lifecycle.{
  transaction_at, new_transaction, transfer, Accounts, set_transaction, marked_posted,
}
use agent_pay.Store.{
  Db, Payment, PaymentRequest, ProviderOperation, ProviderEvent, ProcessingStatus,
  ProcessingStatus_eq, Transaction, TransactionStatus, OperationType, OperationType_eq,
  OperationStatus, Status, Status_eq, Journal, ReferenceType, Key, plain, KeyKind, Session, on_db,
  unit_of_work, fresh_id,
}

-- What `resolve` returns.
pub data Resolved : Type 0 where
  duplicate ignored resolved : Resolved

-- The joined row that `resolve` reads.
pub record Target : Type 0 where
  pub payment_id : ℕ
  pub operation_type : OperationType
  pub amount : ℤ
  pub currency : Text
  pub status : Status
  pub reservation_id : Option ℕ

abbrev with_request : ProviderOperation → Payment → Option PaymentRequest → Option Target
with_request o p none = none
with_request o p (some q) = some (record {
  payment_id = o.payment_id;
  operation_type = o.operation_type;
  amount = p.amount;
  currency = p.currency;
  status = p.status;
  reservation_id = q.budget_reservation_id;
})

abbrev with_payment : ProviderOperation → Option Payment → Db → Option Target
with_payment o none db = none
with_payment o (some p) db = with_request o p (lookup p.payment_request_id db.payment_requests)

unfoldable pub target_of : Option ProviderOperation → Db → Option Target
target_of none db = none
target_of (some o) db = with_payment o (lookup o.payment_id db.payments) db

-- UPDATE provider_events SET processing_status='PROCESSED', processed_at=now()
unfoldable pub mark_processed : ℕ → Exec Db (Unit {0})
mark_processed event = update (λ db. record db {
  provider_events =
      modify event
        (λ e. record e {
          processing_status = ProcessingStatus.processed;
          processed_at = some db.now;
        })
        db.provider_events;
})

unfoldable pub end_operation : ℕ → OperationStatus → Option Text → Exec Db (Unit {0})
end_operation operation status reference = update (λ db. record db {
  provider_operations =
      modify operation
        (λ o. record o {
          status = status;
          provider_reference = coalesce reference o.provider_reference;
          completed_at = some db.now;
        })
        db.provider_operations;
})

unfoldable pub end_payment : ℕ → Status → Option Text → Exec Db (Unit {0})
end_payment payment status reference = update (λ db. record db {
  payments =
      modify payment
        (λ p. record p {
          status = status;
          provider_reference = coalesce reference p.provider_reference;
          completed_at = some db.now;
          updated_at = db.now;
        })
        db.payments;
})

abbrev capture_key : ℕ → Key
capture_key payment = plain KeyKind.payment_capture_transaction payment

-- `_create_transaction`, with CHECK (amount > 0).
unfoldable pub insert_capture : Option (ℕ × Transaction) → ℕ → ℤ → Text → Option Text → Exec Db ℕ
insert_capture (some (id, existing)) payment amount currency reference = pure id
insert_capture none payment amount currency reference = do
  raise_if (leb_ℤ amount (pos 0)) (integrity_error "transactions_amount_check")
  id ← fresh_id
  update (λ db. record db {
    transactions =
        append_row id
          (record (new_transaction payment OperationType.capture TransactionStatus.posted amount
            currency (capture_key payment) db.now) { external_reference = reference })
          db.transactions;
  })
  pure id

abbrev payment_journal : Text → ℕ → Option Text → Journal
payment_journal currency payment correlation = record {
  currency = currency;
  reference_type = ReferenceType.payment;
  reference_id = payment;
  idempotency_key = plain KeyKind.payment_capture payment;
  correlation_id = correlation;
}

-- The success of a charge.
unfoldable pub settle_charge : Target → Option Text → Accounts → Exec Db (Unit {0})
settle_charge t reference to = do
  reservation ←
      or_raise t.reservation_id (value_error "successful charge has no budget reservation")
  consume reservation
  existing ← gets (transaction_at (capture_key t.payment_id))
  id ← insert_capture existing t.payment_id t.amount (upper (strip t.currency)) reference
  _ ←
      post_journal (payment_journal (upper (strip t.currency)) t.payment_id to.correlation)
        (transfer to.customer to.clearing t.amount (upper (strip t.currency)))
  set_transaction id marked_posted

unfoldable pub release_any : Option ℕ → Exec Db (Unit {0})
release_any none = pure tt
release_any (some reservation) = release reservation

unfoldable pub succeed : ℕ → Target → Option Text → Accounts → Exec Db (Unit {0})
succeed operation t reference to = do
  end_operation operation OperationStatus.succeeded reference
  choose (t.operation_type == OperationType.charge) (settle_charge t reference to) (pure tt)
  end_payment t.payment_id Status.succeeded reference

unfoldable pub fail : ℕ → Target → Option Text → Exec Db (Unit {0})
fail operation t reference = do
  end_operation operation OperationStatus.failed reference
  choose (t.operation_type == OperationType.charge) (release_any t.reservation_id) (pure tt)
  end_payment t.payment_id Status.failed reference

abbrev pub awaits : Status → Bool
awaits status =
    status == Status.unknown_external_outcome
    || status == Status.processing
    || status == Status.payment_pending

unfoldable pub apply : ℕ → ℕ → Target → Text → Option Text → Accounts → Exec Db Resolved
apply event operation t outcome reference to =
    choose (not (awaits t.status)) (do mark_processed event; pure ignored)
      (do
        choose (outcome == codes "SUCCEEDED") (succeed operation t reference to) (
            choose (outcome == codes "FAILED") (fail operation t reference)
              (raise (value_error "unsupported provider outcome")))
        mark_processed event
        pure resolved)

-- The unit of work of `resolve`.
unfoldable pub resolve_event : ℕ → ℕ → Text → Option Text → Accounts → Exec Db Resolved
resolve_event event operation outcome reference to = do
  found ← gets (λ db. lookup event db.provider_events)
  e ← or_raise found (value_error "provider event not found")
  raise_if (not e.signature_valid) (permission_error "provider event signature is not valid")
  choose (e.processing_status == ProcessingStatus.processed) (pure duplicate) (do
    row ← gets (λ db. target_of (lookup operation db.provider_operations) db)
    t ← or_raise row (value_error "provider operation not found")
    apply event operation t outcome reference to)

-- `resolve`
unfoldable pub resolve :
    {P : Type 0} → ℕ → ℕ → Text → Option Text → Accounts → Exec (Session P) Resolved
resolve event operation outcome reference to =
    unit_of_work (on_db (resolve_event event operation outcome reference to))
