-- ===== src/LifecycleApi.antt =====
-- reference/implementation/src/agent_pay/lifecycle_api.py
pub mod Amounts
pub mod Agents
mod Tests
use agent_pay.Prelude.{
  ℕ, ℤ, Text, codes, upper, strip, Option, none, some, lookup, Result, ok, err, Error, ◌==◌, ℕ_eq,
  [], not, nat_eq, length,
}
use agent_pay.Prelude.Errors
use agent_pay.Prelude.Errors.{
  Error.http_error, Error.permission_error, Error.value_error, Error.lookup_error,
  Error.integrity_error, Error.runtime_error,
}
use agent_pay.Prelude.Exec.{Exec, pure, gets, lift, or_raise, ◌>>=◌, ◌>>◌, raise_if}
use agent_pay.Auth.{Verifier, Principal, resolve_bearer, require_agent}
use agent_pay.LifecycleApi.Amounts.{decimal_of}
use agent_pay.Lifecycle
use agent_pay.Lifecycle.{Accounts}
use agent_pay.Provider.{MockProvider, ProviderOutcome, mock}
use agent_pay.ProviderEvents.{after_prefix}
use agent_pay.Store.{
  Db, Payment, PaymentRequest, Status, Key, Key_eq, Spelled, Session, on_db, on_provider,
  unit_of_work,
}
use agent_pay.Webhooks.{ledger_accounts}

-- `capture`, `void` and `refund` of the API.
pub data Operation : Type 0 where
  capturing voiding refunding : Operation

-- `except PermissionError as exc: raise HTTPException(status_code)`
abbrev pub refused : {A : Type 0} → ℕ → Result A → Result A
refused status (ok a) = ok a
refused status (err (permission_error reason)) = err (http_error status reason)
refused status (err e) = err e

-- `except ValueError as exc: raise HTTPException(409)`
abbrev pub conflict : {A : Type 0} → Result A → Result A
conflict (ok a) = ok a
conflict (err (value_error reason)) = err (http_error 409 reason)
conflict (err e) = err e

abbrev pub catching : {S A : Type 0} → (Result A → Result A) → Exec S A → Exec S A
catching f m s = let (r, t) = m s in (f r, t)

-- The token of an `Authorization` header.
abbrev pub bearer : Option Text → Option Text
bearer none = none
bearer (some header) = elim (after_prefix (codes "Bearer ") header) [
  | none ↦ none
  | some rest ↦ some (strip rest)
]

abbrev request_of : Option Payment → Db → Option PaymentRequest
request_of none db = none
request_of (some p) db = lookup p.payment_request_id db.payment_requests

-- `uuid` is `str` of a UUID.
module _ (verifier : Verifier) (uuid : ℕ → Text) where
  -- `_authenticate_payment`
  unfoldable pub authenticate_payment : ℕ → Option Text → Exec Db (Unit {0})
  authenticate_payment payment authorization = do
    token ← or_raise (bearer authorization) (http_error 401 "Bearer authentication is required")
    principal ← lift (refused 401 (resolve_bearer verifier token))
    found ← gets (λ db. request_of (lookup payment db.payments) db)
    row ← or_raise found (http_error 404 "payment not found")
    lift (refused 403 (require_agent principal (uuid row.agent_id) (uuid row.account_id)))

  -- The reference of an operation is a function of its key.
  module _ (reference : Key → Text) where
    -- `MockProvider()`
    abbrev new_provider : MockProvider Key Text
    new_provider = record {
      outcome = ProviderOutcome.succeeded;
      calls = 0;
      results = [];
      references = [];
    }

    -- The method of `PaymentLifecycle`.
    unfoldable pub perform :
        Operation → ℕ → Spelled → Text → Accounts → Exec (Session (MockProvider Key Text)) Status
    perform capturing payment amount currency to =
        Lifecycle.capture (mock reference) payment amount.value currency to
    perform voiding payment amount currency to =
        Lifecycle.void (mock reference) payment amount.value currency
    perform refunding payment amount currency to =
        Lifecycle.refund (mock reference) payment amount currency to

    -- The unit of work of `_run`.
    unfoldable pub operate :
        Operation → ℕ → Spelled → Text → Option Text → Exec (Session (MockProvider Key Text)) Status
    operate operation payment amount currency correlation = do
      to ← on_db (ledger_accounts payment correlation)
      on_provider (λ old. (tt, new_provider))
      catching conflict (perform operation payment amount (upper currency) to)

    -- `_run` with an amount that `LifecycleAmount` accepts.
    unfoldable pub run :
        Operation
        → ℕ
        → Spelled
        → Text
        → Option Text
        → Option Text
        → Exec (Session (MockProvider Key Text)) Status
    run operation payment amount currency authorization correlation = do
      on_db (authenticate_payment payment authorization)
      unit_of_work (operate operation payment amount currency correlation)

    -- The validation of `LifecycleAmount`, which answers 422, and `_run`.
    unfoldable pub lifecycle_request :
        Operation
        → ℕ
        → Text
        → Text
        → Option Text
        → Option Text
        → Exec (Session (MockProvider Key Text)) Status
    lifecycle_request operation payment amount currency authorization correlation = do
      value ← or_raise (decimal_of amount) (http_error 422 "request validation failed")
      raise_if (not (nat_eq (length currency) 3)) (http_error 422 "request validation failed")
      run operation payment value currency authorization correlation
