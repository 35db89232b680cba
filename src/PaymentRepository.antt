-- ===== src/PaymentRepository.antt =====
-- reference/implementation/src/agent_pay/repositories.py: `class PaymentRepository`, the methods
-- that the execution of a payment uses.
use agent_pay.Prelude.{
  ℕ, Text, ◌==◌, ℕ_eq, Bool, true, false, not, ◌||◌, Option, none, some, or_else, modify,
  append_row, find_row,
}
use agent_pay.Prelude.Errors.{Error.value_error}
use agent_pay.Prelude.Exec.{Exec, pure, gets, ◌>>=◌, ◌>>◌, update, raise_if}
use agent_pay.Store.{
  Db, Payment, ProviderOperation, OperationType, OperationType_eq, OperationStatus, Status,
  Status_eq, Key, Key_eq, fresh_id,
}

-- COALESCE(reference, provider_reference)
abbrev pub coalesce : Option Text → Option Text → Option Text
coalesce reference old = or_else reference old

abbrev pub completes : Status → Bool
completes status = status == Status.succeeded || status == Status.failed

abbrev pub set_status : Status → Option Text → ℕ → Payment → Payment
set_status status reference now p = record p {
  status = status;
  provider_reference = coalesce reference p.provider_reference;
  completed_at = elim (completes status) [ true ↦ some now | false ↦ p.completed_at ];
  updated_at = now;
}

-- `update_status`
unfoldable pub update_status : ℕ → Status → Option Text → Exec Db (Unit {0})
update_status payment status reference =
    update (λ db. record db {
      payments = modify payment (set_status status reference db.now) db.payments;
    })

abbrev new_operation : ℕ → OperationType → Key → ProviderOperation
new_operation payment operation_type key = record {
  payment_id = payment;
  operation_type = operation_type;
  idempotency_key = key;
  provider_reference = none;
  status = OperationStatus.pending;
  completed_at = none;
}

-- INSERT ... ON CONFLICT (idempotency_key) DO NOTHING, then the check of the row that is there.
unfoldable pub claim_operation :
    Option (ℕ × ProviderOperation) → ℕ → OperationType → Key → Exec Db ℕ
claim_operation none payment operation_type key = do
  id ← fresh_id
  update (λ db. record db {
    provider_operations =
        append_row id (new_operation payment operation_type key) db.provider_operations;
  })
  pure id
claim_operation (some (id, existing)) payment operation_type key = do
  raise_if (not (existing.payment_id == payment) || not (existing.operation_type == operation_type))
      (value_error "provider operation idempotency key conflict")
  pure id

-- `create_provider_operation`
unfoldable pub create_provider_operation : ℕ → OperationType → Key → Exec Db ℕ
create_provider_operation payment operation_type key = do
  existing ← gets (λ db. find_row (λ o. o.idempotency_key == key) db.provider_operations)
  id ← claim_operation existing payment operation_type key
  update (λ db. record db {
    payments =
        modify payment (λ p. record p { provider_operation_id = some id; updated_at = db.now })
          db.payments;
  })
  pure id
