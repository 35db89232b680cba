-- ===== src/Service/Budgets.antt =====
-- What a new payment does to the budget.
use agent_pay.Prelude.{
  ℤ, pos, ◌+ℤ◌, ◌-ℤ◌, ◌≤ℤ◌, ◌<ℤ◌, ltb_ℤ, int_laws, +ℤ_parts, Text, Bool, true, false, none, lookup,
  insert, ok, ◌≡◌, refl, arith, List_eq, ℕ_eq,
}
use agent_pay.Prelude.Exec.{◌>>=◌, update}
use agent_pay.Budget
use agent_pay.Budget.{Budget}
use agent_pay.Domain.{
  Decision, Decision.allow_auto, Decision.allow_notify, Decision.deny, Decision.require_approval,
  PaymentStatus, PaymentIntent, fingerprint,
}
use agent_pay.Policy.{SpendingPolicy, evaluate}
use agent_pay.Policy.Decisions.{Permits, IsAbove, denied-unpermitted, evaluate-grades}
use agent_pay.Provider.{
  PaymentProvider, ProviderOutcome, ProviderOutcome.succeeded, ProviderOutcome.failed,
  ProviderOutcome.unknown,
}
use agent_pay.Service.{
  PaymentService, PaymentResult, result, create_payment, resume, decided, proceed, execute, settle,
  on_budget, on_provider, charge_order,
}

abbrev pub status_of : ProviderOutcome → PaymentStatus
status_of succeeded = PaymentStatus.succeeded
status_of failed = PaymentStatus.failed
status_of unknown = PaymentStatus.unknown_external_outcome

-- The budget after a charge of an amount: used, free again, or still held.
abbrev pub charged : ProviderOutcome → ℤ → Budget → Budget
charged succeeded a b = record b { consumed = b.consumed +ℤ a }
charged failed a b = b
charged unknown a b = record b { reserved = b.reserved +ℤ a }

abbrev pub allows : Decision → Bool
allows allow_auto = true
allows allow_notify = true
allows deny = false
allows require_approval = false

-- Why a payment is not carried out.
pub data IsWithheld (policy : SpendingPolicy) (intent : PaymentIntent) : Decision → Type 0 where
  unpermitted : ¬ Permits policy intent none → IsWithheld policy intent deny
  unapproved :
      Permits policy intent none
      → IsAbove intent.amount.value policy.approval_above
      → IsWithheld policy intent require_approval

-- The status of a payment that is not carried out.
abbrev pub withheld : Decision → PaymentStatus
withheld require_approval = PaymentStatus.approval_required
withheld deny = PaymentStatus.failed
withheld allow_auto = PaymentStatus.failed
withheld allow_notify = PaymentStatus.failed

back : (r a : ℤ) → r +ℤ a -ℤ a ≡ r
back r a = grind int_laws

covered : (r a : ℤ) → pos 0 ≤ℤ r → ltb_ℤ (r +ℤ a) a ≡ false
covered r a h = ground (arith, +ℤ_parts r a)

abbrev held : ℤ → Budget → Budget
held a b = record b { reserved = b.reserved +ℤ a }

module _ (a : ℤ) (b : Budget) (nonneg : pos 0 ≤ℤ b.reserved) where
  consume-held : Budget.consume a (held a b) ≡ ok (record b { consumed = b.consumed +ℤ a })
  unfolding Budget.consume
  consume-held = rw (covered b.reserved a nonneg) (rw back)

  release-held : Budget.release a (held a b) ≡ ok b
  unfolding Budget.release
  release-held = rw (covered b.reserved a nonneg) (rw back)

module _ {P : Type 0} (provider : PaymentProvider P Text Text) (intent : PaymentIntent)
    (s : PaymentService P) where
  abbrev pub concluded : PaymentResult → Budget → P → PaymentService P
  concluded r b p = record s {
    budget = b;
    provider = p;
    idempotency = insert intent.idempotency_key (fingerprint intent, r) s.idempotency;
  }

  settle_lem :
      (o : ProviderOutcome) (d : Decision) (p : P)
      → pos 0 ≤ℤ s.budget.reserved
      → settle o intent d (record s { budget = held intent.amount.value s.budget; provider = p })
        ≡ (
          ok (result intent (status_of o) d),
          record s { budget = charged o intent.amount.value s.budget; provider = p },
        )
  unfolding settle on_budget ◌>>=◌
  settle_lem succeeded d p h = ground (arith, consume-held intent.amount.value s.budget h)
  settle_lem failed d p h = ground (arith, release-held intent.amount.value s.budget h)
  settle_lem unknown d p h = refl

  proceed_lem :
      (d : Decision) (o : ProviderOutcome) (p : P)
      → pos 0 ≤ℤ s.budget.reserved
      → Budget.reserve intent.amount.value s.budget ≡ ok (true, held intent.amount.value s.budget)
      → provider.charge (charge_order intent) s.provider ≡ (o, p)
      → proceed provider none intent d s ≡ (
        ok (result intent (status_of o) d),
        record s { budget = charged o intent.amount.value s.budget; provider = p },
      )
  unfolding proceed execute on_budget on_provider ◌>>=◌
  proceed_lem d o p h r c = ground (arith, settle_lem o d p h)

  decided_lem :
      (d : Decision)
      → allows d ≡ true
      → decided provider none intent d ≡ proceed provider none intent d
  unfolding decided
  decided_lem allow_auto h = refl
  decided_lem allow_notify h = refl
  decided_lem deny h = cc
  decided_lem require_approval h = cc

  reserves :
      pos 0 <ℤ intent.amount.value
      → intent.amount.value ≤ℤ Budget.available s.budget
      → Budget.reserve intent.amount.value s.budget ≡ ok (true, held intent.amount.value s.budget)
  unfolding Budget.reserve
  reserves h k = ground arith

  -- With a provider that is no router, a new intent that the policy allows, of a positive amount
  -- that is available, in a budget whose reserved amount is not negative: the provider is called
  -- once, the status follows its outcome, and the amount is used after a success, free again after
  -- a failure and still reserved after an unknown outcome. The result is recorded.
  pub create_payment-charges :
      (d : Decision) (o : ProviderOutcome) (p : P)
      → lookup intent.idempotency_key s.idempotency ≡ none
      → evaluate s.policy intent none ≡ d
      → allows d ≡ true
      → pos 0 <ℤ intent.amount.value
      → intent.amount.value ≤ℤ Budget.available s.budget
      → pos 0 ≤ℤ s.budget.reserved
      → provider.charge (charge_order intent) s.provider ≡ (o, p)
      → create_payment provider none intent s ≡ (
        ok (result intent (status_of o) d),
        concluded (result intent (status_of o) d) (charged o intent.amount.value s.budget) p,
      )
  unfolding create_payment resume ◌>>=◌ update
  create_payment-charges d o p new e allowed positive fits nonneg c =
      rw new (
        rw e
          (rw (decided_lem d allowed) (rw (proceed_lem d o p nonneg (reserves positive fits) c))))

  -- With a provider that is no router, a new intent that the policy does not permit, or permits with
  -- an amount above the bound for approvals, leaves the budget and the provider as they are. It
  -- fails, or waits for the approval, and its result is recorded.
  pub create_payment-withholds :
      (d : Decision)
      → lookup intent.idempotency_key s.idempotency ≡ none
      → IsWithheld s.policy intent d
      → create_payment provider none intent s ≡ (
        ok (result intent (withheld d) d),
        concluded (result intent (withheld d) d) s.budget s.provider,
      )
  unfolding create_payment resume decided ◌>>=◌ update
  create_payment-withholds deny new (unpermitted n) =
      rw (new, denied-unpermitted s.policy intent none n)
  create_payment-withholds require_approval new (unapproved h above) =
      rw (new, (evaluate-grades s.policy intent none).0.1 (h, above))
  create_payment-withholds allow_auto new w = elim w [ ]
  create_payment-withholds allow_notify new w = elim w [ ]
