-- ===== src/WorkerRunner.antt =====
-- reference/implementation/src/agent_pay/worker_runner.py, and the query of repositories.py that it
-- starts with.
pub mod Sound
mod Tests
use agent_pay.Prelude.{
  ℕ, zero, suc, ◌+◌, Text, codes, strip, upper, ◌==◌, ℕ_eq, List_eq, Bool, true, false, ◌&&◌,
  Option, none, some, lookup, Table, List, [], ◌∷◌, Result, ok, err, if◌then◌else◌,
}
use agent_pay.Prelude.Errors.{Error.value_error, Error.runtime_error}
use agent_pay.Prelude.Exec.{Exec, pure, gets, lift, or_raise, ◌>>=◌, ◌>>◌}
use agent_pay.Lifecycle.{Accounts}
use agent_pay.Provider.{MockProvider, ProviderOutcome, PaymentProvider, mock, reference_for}
use agent_pay.Store.{
  Db, Payment, PaymentRequest, Status, Status_eq, Key, Key_eq, Session, on_db, on_provider,
  unit_of_work,
}
use agent_pay.Webhooks.{customer_account, clearing_account, both_accounts}
use agent_pay.Worker.{process_one}

abbrev is_held : Option PaymentRequest → Bool
is_held none = false
is_held (some r) = elim r.budget_reservation_id [ none ↦ false | some id ↦ true ]

-- `PaymentRepository.pending_for_execution`: the ids of the first payments that are processing and
-- hold a reservation.
unfoldable pub pending_for_execution : ℕ → Table PaymentRequest → Table Payment → List ℕ
pending_for_execution limit requests [] = []
pending_for_execution zero requests ((id, p) ∷ t) = []
pending_for_execution (suc limit) requests ((id, p) ∷ t) =
    elim (p.status == Status.processing && is_held (lookup p.payment_request_id requests)) [
      | true ↦ id ∷ pending_for_execution limit requests t
      | false ↦ pending_for_execution (suc limit) requests t
    ]

abbrev accounts_of_request : Option PaymentRequest → Payment → Db → Option Accounts
accounts_of_request none p db = none
accounts_of_request (some r) p db =
    both_accounts (customer_account r.account_id p.currency db)
      (clearing_account (codes "mock") (upper (strip p.currency)) db) none

-- The query of the accounts, with the currency of `_payment_currency`.
unfoldable pub payment_accounts : ℕ → Exec Db Accounts
payment_accounts payment = do
  found ← gets (λ db. lookup payment db.payments)
  p ← or_raise found (value_error "payment not found")
  to ← gets (λ db. accounts_of_request (lookup p.payment_request_id db.payment_requests) p db)
  or_raise to
      (runtime_error "customer wallet ledger account or provider clearing account is missing")

-- ProviderOutcome(os.getenv("AGENT_PAY_MOCK_OUTCOME", "SUCCEEDED"))
unfoldable pub outcome_named : Option Text → Result ProviderOutcome
outcome_named none = ok ProviderOutcome.succeeded
outcome_named (some name) =
    if name == codes "SUCCEEDED"
    then ok ProviderOutcome.succeeded
    else if name == codes "FAILED"
    then ok ProviderOutcome.failed
    else if name == codes "UNKNOWN_EXTERNAL_OUTCOME"
    then ok ProviderOutcome.unknown
    else err (value_error "not a valid ProviderOutcome")

module _ (reference : Key → Text) where
  abbrev new_provider : ProviderOutcome → MockProvider Key Text
  new_provider outcome = record { outcome = outcome; calls = 0; results = []; references = [] }

  -- The loop over the payments: an exception ends it.
  unfoldable pub process_payments : List ℕ → ℕ → Exec (Session (MockProvider Key Text)) ℕ
  process_payments [] processed = pure processed
  process_payments (payment ∷ payments) processed = do
    to ← on_db (payment_accounts payment)
    _ ← process_one (mock reference) (some reference_for) payment to
    process_payments payments (suc processed)

  -- `run_once` with the value of AGENT_PAY_MOCK_OUTCOME.
  unfoldable pub run_once : Option Text → ℕ → Exec (Session (MockProvider Key Text)) ℕ
  run_once name limit = do
    ids ←
        unit_of_work
          (on_db (gets (λ db. pending_for_execution limit db.payment_requests db.payments)))
    outcome ← lift (outcome_named name)
    on_provider (λ old. (tt, new_provider outcome))
    process_payments ids 0
