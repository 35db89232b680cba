-- ===== src/Lifecycle/Tests.antt =====
-- Runs and instances for capture, void and refund.
use agent_pay.Prelude.{
  ◌≡◌, ◌≤ℤ◌, ◌+ℤ◌, ◌-ℤ◌, refl, err, ok, lookup, insert, modify, find_row, sum_rows, strip, upper,
  list_eq, eq_of_discrete, List, [], ◌∷◌, arith,
}
use agent_pay.Prelude.Errors.{Error.value_error}
use agent_pay.Prelude.Exec.{◌>>=◌, raise_if, update}
use agent_pay.Journals.{insert_posting, insert_postings, insert_journal, post_new, post_journal}
use agent_pay.Lifecycle.{
  validate_operation_amount, amount_minor, insert_transaction, create_transaction, settle_capture,
  settle_void, capture_new, capture, void_new, void, refund, posted_sum,
}
use agent_pay.Lifecycle.Calls.{Call, capturing, refunding, run_all, run_all-covers}
use agent_pay.Lifecycle.Capture.{capture-twice, void-twice}
use agent_pay.Lifecycle.Covered.{Covered}
use agent_pay.PaymentRepository.{update_status, claim_operation, create_provider_operation}
use agent_pay.Provider.{run_mock}
use agent_pay.Samples.{ten, usd, to, provider, session, with_payment}
use agent_pay.Store.{
  Status, Status-discrete, OperationType, OperationType-discrete, TransactionStatus-discrete,
  Side-discrete, KeyKind-discrete, key_eq, on_db, on_provider, unit_of_work, fresh_id,
}

not_captured :
    (unit_of_work
      (refund provider 1 (record { value = ten; places = 2 }) usd to)
      (session Status.authorized)).0
    ≡ err (value_error "only a captured payment can be refunded")
unfolding unit_of_work refund on_db ◌>>=◌ lookup raise_if Status-discrete eq_of_discrete
not_captured = refl

captured :
    capture provider 1 ten usd to (session Status.authorized)
    ≡ (ok Status.succeeded, (capture provider 1 ten usd to (session Status.authorized)).1)
unfolding capture capture_new validate_operation_amount amount_minor create_provider_operation
    claim_operation settle_capture create_transaction insert_transaction post_journal post_new
    insert_journal insert_postings insert_posting update_status fresh_id run_mock lookup insert
    modify find_row strip upper list_eq on_db on_provider ◌>>=◌ update raise_if Status-discrete
    eq_of_discrete ◌+ℤ◌ ◌-ℤ◌ key_eq Side-discrete KeyKind-discrete OperationType-discrete
    TransactionStatus-discrete
captured = refl

capture-twice_example :
    capture provider 1 ten usd to (capture provider 1 ten usd to (session Status.authorized)).1
    ≡ (ok Status.succeeded, (capture provider 1 ten usd to (session Status.authorized)).1)
capture-twice_example =
    capture-twice provider 1 ten usd to (session Status.authorized)
      (capture provider 1 ten usd to (session Status.authorized)).1 captured

voided :
    void provider 1 ten usd (session Status.authorized)
    ≡ (ok Status.voided, (void provider 1 ten usd (session Status.authorized)).1)
unfolding void void_new validate_operation_amount amount_minor create_provider_operation
    claim_operation settle_void create_transaction insert_transaction update_status fresh_id
    run_mock lookup insert modify find_row strip upper list_eq on_db on_provider ◌>>=◌ update
    raise_if Status-discrete eq_of_discrete ◌+ℤ◌ ◌-ℤ◌ key_eq KeyKind-discrete OperationType-discrete
    TransactionStatus-discrete
voided = refl

void-twice_example :
    void provider 1 ten usd (void provider 1 ten usd (session Status.authorized)).1
    ≡ (ok Status.voided, (void provider 1 ten usd (session Status.authorized)).1)
void-twice_example =
    void-twice provider 1 ten usd (session Status.authorized)
      (void provider 1 ten usd (session Status.authorized)).1 voided

start-Covered : Covered (with_payment Status.authorized)
unfolding sum_rows
start-Covered = record { below = tt; distinct = tt; fits = tt; within = λ p. omega arith }

abbrev calls : List Call
calls =
    capturing 1 ten usd to
    ∷ refunding 1 (record { value = ten; places = 2 }) usd to
    ∷ refunding 1 (record { value = ten; places = 4 }) usd to
    ∷ []

run_all-covers_example :
    posted_sum 1 OperationType.refund (run_all provider (session Status.authorized) calls).durable
    ≤ℤ posted_sum 1 OperationType.capture
        (run_all provider (session Status.authorized) calls).durable
run_all-covers_example =
    run_all-covers provider (session Status.authorized) calls start-Covered start-Covered 1
