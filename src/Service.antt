-- ===== src/Service.antt =====
-- reference/implementation/src/agent_pay/service.py: the in-memory payment service.
pub mod Replays
pub mod Budgets
mod Tests
use agent_pay.Prelude.{
  ℕ, ◌/◌, ℤ, pos, pos_part, neg_part, ◌-ℤ◌, Text, codes, ◌++◌, Eq, ◌==◌, List_eq, ℕ_eq, eq_ℤ, Bool,
  true, false, not, ◌&&◌, Option, none, some, Dict, lookup, insert, Result, ok, err,
}
use agent_pay.Prelude.Errors.{Error.value_error}
use agent_pay.Prelude.Exec.{Exec, pure, gets, choose, ◌>>=◌, ◌>>◌, update, raise_if, lift}
use agent_pay.Domain.{
  Decision, Decision.deny, Decision.require_approval, Decision.allow_auto, Decision.allow_notify,
  PaymentStatus, PaymentIntent, Fingerprint, fingerprint,
}
use agent_pay.Budget
use agent_pay.Budget.{Budget}
use agent_pay.Policy.{SpendingPolicy, evaluate}
use agent_pay.Provider.{
  PaymentProvider, ProviderOutcome, Order, ProviderOutcome.succeeded, ProviderOutcome.failed,
  ProviderOutcome.unknown,
}

pub record PaymentResult : Type 0 where
  pub payment_id : Text
  pub status : PaymentStatus
  pub decision : Decision

-- The attributes of a `PaymentService`, and the state of the providers it calls. The idempotency
-- key of a charge is the f-string `payment:{payment_id}:charge`, given here by the payment's id.
pub record PaymentService (P : Type 0) : Type 0 where
  pub policy : SpendingPolicy
  pub budget : Budget
  pub provider : P
  pub idempotency : Dict Text (Fingerprint × PaymentResult)

abbrev pub same_fingerprint : Fingerprint → Fingerprint → Bool
same_fingerprint (a, d, v, c, p) (b, e, w, k, q) = a == b && d == e && eq_ℤ v w && c == k && p == q

abbrev pub changed : Result Budget → Result (Unit {0} × Budget)
changed (ok b) = ok (tt, b)
changed (err e) = err e

abbrev pub result : PaymentIntent → PaymentStatus → Decision → PaymentResult
result intent status decision = record {
  payment_id = intent.payment_id;
  status = status;
  decision = decision;
}

module _ {P : Type 0} where
  -- A method of the service's budget.
  unfoldable pub on_budget :
      {A : Type 0} → (Budget → Result (A × Budget)) → Exec (PaymentService P) A
  on_budget f s = elim (f s.budget) [
    | err e ↦ (err e, s)
    | ok (a, b) ↦ (ok a, record s { budget = b })
  ]

  unfoldable pub on_provider : (P → ProviderOutcome × P) → Exec (PaymentService P) ProviderOutcome
  on_provider f s = let (o, p) = f s.provider in (ok o, record s { provider = p })

  -- `_execute` after the charge.
  unfoldable pub settle :
      ProviderOutcome → PaymentIntent → Decision → Exec (PaymentService P) PaymentResult
  settle succeeded intent decision = do
    on_budget (λ b. changed (Budget.consume intent.amount.value b))
    pure (result intent PaymentStatus.succeeded decision)
  settle failed intent decision = do
    on_budget (λ b. changed (Budget.release intent.amount.value b))
    pure (result intent PaymentStatus.failed decision)
  settle unknown intent decision =
      pure (result intent PaymentStatus.unknown_external_outcome decision)

-- payment:{payment_id}:charge
abbrev pub charge_key : Text → Text
charge_key payment_id = codes "payment:" ++ payment_id ++ codes ":charge"

-- int(value * Decimal("100"))
abbrev pub cents : ℤ → ℤ
cents amount = pos (pos_part amount / 100) -ℤ pos (neg_part amount / 100)

abbrev pub charge_order : PaymentIntent → Order Text Text
charge_order intent = record {
  payment_id = intent.payment_id;
  amount_minor = cents intent.amount.value;
  currency = intent.amount.currency;
  idempotency_key = charge_key intent.payment_id;
}

-- `selector` is the provider's `for_payment`, where it has one.
module _ {P : Type 0} (provider : PaymentProvider P Text Text)
    (selector : Option (Text → Text → Result (PaymentProvider P Text Text))) where
  -- `_provider_for`
  abbrev pub provider_for : PaymentIntent → Result (PaymentProvider P Text Text)
  provider_for intent = elim selector [
    | none ↦ ok provider
    | some for_payment ↦ for_payment intent.merchant_domain intent.amount.currency
  ]

  -- `_execute`
  unfoldable pub execute :
      PaymentIntent → Decision → PaymentProvider P Text Text → Exec (PaymentService P) PaymentResult
  execute intent decision chosen = do
    outcome ← on_provider (chosen.charge (charge_order intent))
    settle outcome intent decision

  -- The branch of a policy that allows the payment.
  unfoldable pub proceed : PaymentIntent → Decision → Exec (PaymentService P) PaymentResult
  proceed intent decision = do
    chosen ← lift (provider_for intent)
    reserved ← on_budget (Budget.reserve intent.amount.value)
    choose (not reserved) (pure (result intent PaymentStatus.failed Decision.deny))
        (execute intent decision chosen)

  unfoldable pub decided : PaymentIntent → Decision → Exec (PaymentService P) PaymentResult
  decided intent deny = pure (result intent PaymentStatus.failed deny)
  decided intent require_approval =
      pure (result intent PaymentStatus.approval_required require_approval)
  decided intent allow_auto = proceed intent allow_auto
  decided intent allow_notify = proceed intent allow_notify

  unfoldable pub resume :
      Option (Fingerprint × PaymentResult) → PaymentIntent → Exec (PaymentService P) PaymentResult
  resume (some (old, r)) intent = do
    raise_if (not (same_fingerprint old (fingerprint intent)))
        (value_error "idempotency key conflict")
    pure r
  resume none intent = do
    decision ← gets (λ s. evaluate s.policy intent none)
    r ← decided intent decision
    update (λ s. record s {
      idempotency = insert intent.idempotency_key (fingerprint intent, r) s.idempotency;
    })
    pure r

  -- `create_payment`
  unfoldable pub create_payment : PaymentIntent → Exec (PaymentService P) PaymentResult
  create_payment intent = do
    previous ← gets (λ s. lookup intent.idempotency_key s.idempotency)
    resume previous intent
