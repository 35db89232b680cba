-- ===== src/WorkerRunner/Tests.antt =====
-- Runs and instances for the payment worker.
use agent_pay.Prelude.{
  some, codes, [], ◌∷◌, ◌≡◌, refl, ok, Text, list_eq, eq_of_discrete, lookup, find_row, upper,
  strip, insert, modify, find_last, modify_where, is_space, lstrip, upper_char,
}
use agent_pay.Prelude.Exec.{◌>>=◌, choose, gets, lift, or_raise, pure, raise_if, update}
use agent_pay.Worker.{process_one, begin, outcome_of}
use agent_pay.Orchestrator.{update_charges, conclude, finalize, upsert_capture}
use agent_pay.Lifecycle.{set_transaction}
use agent_pay.Outbox.{enqueue}
use agent_pay.PaymentRepository.{claim_operation, create_provider_operation, update_status}
use agent_pay.Intact.{Intact}
use agent_pay.Intact.Sessions.{Sound}
use agent_pay.Provider.{MockProvider, reference_for, run_mock}
use agent_pay.Samples.{no_reference, approving, request, with_payment, with_payment-Intact}
use agent_pay.Store.{
  Db, Key, Session, Status, unit_of_work, on_db, on_provider, Status-discrete,
  OperationType-discrete, TransactionStatus-discrete, KeyKind-discrete, key_eq, fresh_id,
}
use agent_pay.WorkerRunner.{
  pending_for_execution, run_once, outcome_named, process_payments, payment_accounts,
}
use agent_pay.WorkerRunner.Sound.{run_once-Intact}

-- The payment holds a reservation.
abbrev held : Db
held = record (with_payment Status.processing) {
  payment_requests = (2, record request { budget_reservation_id = some 9 }) ∷ [];
}

abbrev session : Session (MockProvider Key Text)
session = record { durable = held; db = held; provider = approving }

held-Intact : Intact held
held-Intact = record {
  books = record { at_journal = λ j. refl };
  budgets = (with_payment-Intact Status.processing).budgets;
}

run_once-Intact_example :
    Sound (run_once no_reference (some (codes "UNKNOWN_EXTERNAL_OUTCOME")) 25 session).1
run_once-Intact_example =
    run_once-Intact no_reference (some (codes "UNKNOWN_EXTERNAL_OUTCOME")) 25 session
      (held-Intact, held-Intact)

taken : pending_for_execution 25 held.payment_requests held.payments ≡ 1 ∷ []
unfolding pending_for_execution eq_of_discrete Status-discrete lookup
taken = refl

none_taken : pending_for_execution 0 held.payment_requests held.payments ≡ []
unfolding pending_for_execution
none_taken = refl

processed_once :
    (run_once no_reference (some (codes "UNKNOWN_EXTERNAL_OUTCOME")) 25 session).0 ≡ ok 1
unfolding run_once ◌>>=◌ unit_of_work on_db outcome_named list_eq on_provider process_payments
    pending_for_execution eq_of_discrete Status-discrete lookup payment_accounts find_row upper
    strip process_one begin update_charges conclude finalize enqueue claim_operation
    create_provider_operation update_status insert modify choose gets lift or_raise pure raise_if
    update find_last modify_where is_space lstrip upper_char reference_for run_mock
    OperationType-discrete TransactionStatus-discrete KeyKind-discrete key_eq fresh_id outcome_of
    set_transaction upsert_capture
processed_once = refl
