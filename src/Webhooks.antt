-- ===== src/Webhooks.antt =====
-- reference/implementation/src/agent_pay/webhooks.py: the handlers of what providers send.
pub mod Reading
pub mod Ends
pub mod Keeping
pub mod Once
pub mod Signed
mod Tests
use agent_pay.Prelude.{
  ℕ, Text, codes, ◌==◌, List_eq, ℕ_eq, Bool, true, false, ◌&&◌, Option, none, some, lookup, modify,
  find_row, find_last,
}
use agent_pay.Prelude.Errors.{Error.http_error}
use agent_pay.Prelude.Exec.{Exec, pure, gets, lift, or_raise, ◌>>=◌, ◌>>◌, update}
use agent_pay.Lifecycle.{Accounts}
use agent_pay.ProviderEvents.{record_event}
use agent_pay.Resolution.{Resolved, resolve}
use agent_pay.Settlement.{Conclusion, ingest, has_reference}
use agent_pay.Store.{
  Db, Payment, PaymentRequest, ProviderOperation, Wallet, LedgerAccount, ProviderAccount, Session,
  on_db, unit_of_work,
}
use agent_pay.Webhooks.Reading.{Runtime, Delivery, Event, outcome_of, read_event, read_report}

-- What `provider_webhook` returns.
pub data Response : Type 0 where
  duplicate accepted : Text → Response
  concluded : Resolved → Text → ℕ → Response

-- w.account_id = pr.account_id AND w.currency = p.currency AND w.status = 'ACTIVE'
abbrev serves : ℕ → Text → Option Wallet → Bool
serves account currency none = false
serves account currency (some w) = w.account_id == account && w.currency == currency && w.active

abbrev is_of : ℕ → Text → Db → Option ℕ → Bool
is_of account currency db none = false
is_of account currency db (some wallet) = serves account currency (lookup wallet db.wallets)

-- The ledger account of the customer's active wallet in a currency.
abbrev pub customer_account : ℕ → Text → Db → Option ℕ
customer_account account currency db =
    elim (find_row (λ a. is_of account currency db a.wallet_id) db.ledger_accounts) [
      | none ↦ none
      | some (id, a) ↦ some id
    ]

abbrev pub clearing_account : Text → Text → Db → Option ℕ
clearing_account provider_name currency db =
    elim (find_row (λ a. a.provider_name == provider_name && a.currency == currency && a.active)
      db.payment_provider_accounts) [ none ↦ none | some (id, a) ↦ some a.ledger_account_id ]

abbrev pub both_accounts : Option ℕ → Option ℕ → Option Text → Option Accounts
both_accounts (some customer) (some clearing) correlation =
    some (record { customer = customer; clearing = clearing; correlation = correlation })
both_accounts customer clearing correlation = none

abbrev accounts_of_request : Option PaymentRequest → Text → Option Text → Db → Option Accounts
accounts_of_request none currency correlation db = none
accounts_of_request (some q) currency correlation db =
    both_accounts (customer_account q.account_id currency db)
      (clearing_account (codes "mock") currency db) correlation

abbrev accounts_of_payment : Option Payment → Option Text → Db → Option Accounts
accounts_of_payment none correlation db = none
accounts_of_payment (some p) correlation db =
    accounts_of_request (lookup p.payment_request_id db.payment_requests) p.currency correlation db

-- `_ledger_accounts`, with the correlation id that goes with them.
unfoldable pub ledger_accounts : ℕ → Option Text → Exec Db Accounts
ledger_accounts payment correlation = do
  found ← gets (λ db. accounts_of_payment (lookup payment db.payments) correlation db)
  or_raise found (http_error 409 "ledger accounts are not configured")

-- UPDATE provider_events SET provider_operation_id
unfoldable pub attach : ℕ → ℕ → Exec Db (Unit {0})
attach event operation = update (λ db. record db {
  provider_events =
      modify event (λ e. record e { provider_operation_id = some operation }) db.provider_events;
})

module _ {P : Type 0} where
  -- A financial event, after it is recorded.
  unfoldable pub conclude : ℕ → Event → Text → Option Text → Text → Exec (Session P) Response
  conclude id e outcome correlation reference = do
    found ← on_db (
        gets (λ db.
          find_last (λ o. has_reference reference o.provider_reference) db.provider_operations))
    operation ← or_raise found (http_error 404 "provider operation not found")
    on_db (attach id operation.0)
    to ← on_db (ledger_accounts operation.1.payment_id correlation)
    result ← resolve id operation.0 outcome (some reference) to
    pure (concluded result e.event_id operation.1.payment_id)

  unfoldable pub act : ℕ → Event → Option Text → Option Text → Exec (Session P) Response
  act id e none correlation = pure (accepted e.event_id)
  act id e (some outcome) correlation = do
    reference ←
        or_raise e.provider_reference
          (http_error 400 "provider_reference is required for financial events")
    conclude id e outcome correlation reference

  unfoldable pub after_record : Option ℕ → Event → Option Text → Exec (Session P) Response
  after_record none e correlation = pure (duplicate e.event_id)
  after_record (some id) e correlation = act id e (outcome_of e.event_type) correlation

module _ {P : Type 0} (runtime : Runtime) where
  unfoldable pub handle_event : Event → Option Text → Exec (Session P) Response
  handle_event e correlation = do
    recorded ←
        on_db (record_event runtime.digest e.provider_name e.event_id e.event_type e.payload true)
    after_record recorded e correlation

  -- `provider_webhook`
  unfoldable pub provider_webhook : Delivery → Exec (Session P) Response
  provider_webhook d = do
    now ← on_db (gets (λ db. db.now))
    e ← lift (read_event runtime d now)
    unit_of_work (handle_event e d.correlation_id)

  -- `provider_settlement`
  unfoldable pub provider_settlement : Delivery → Exec (Session P) Conclusion
  provider_settlement d = do report ← lift (read_report runtime d); ingest report
