-- ===== src/Provider.antt =====
-- reference/implementation/src/agent_pay/provider.py: the provider interface and the two providers
-- of the reference implementation. Ids and idempotency keys are type parameters: a client compares
-- keys and does nothing else with them.
mod Replay
mod Tests
use agent_pay.Prelude.{ℕ, suc, ◌+◌, ℤ, Text, Eq, Dict, lookup, insert, Option, none, some}

pub data ProviderOutcome : Type 0 where
  succeeded failed unknown : ProviderOutcome

-- The arguments of a provider's method.
pub record Order (I K : Type 0) : Type 0 where
  pub payment_id : I
  pub amount_minor : ℤ
  pub currency : Text
  pub idempotency_key : K

-- `class PaymentProvider`, over the state `P` that a provider keeps.
pub record PaymentProvider (P I K : Type 0) : Type 0 where
  pub charge : Order I K → P → ProviderOutcome × P
  pub capture : Order I K → P → ProviderOutcome × P
  pub void : Order I K → P → ProviderOutcome × P
  pub refund : Order I K → P → ProviderOutcome × P

-- `class MockProvider`; `R` is the type of references.
pub record MockProvider (K R : Type 0) : Type 0 where
  pub outcome : ProviderOutcome
  pub calls : ℕ
  pub results : Dict K ProviderOutcome
  pub references : Dict K R

-- `class SandboxProvider`
pub record SandboxProvider (K R : Type 0) : Type 0 where
  pub default_outcome : ProviderOutcome
  pub calls : ℕ
  pub results : Dict K ProviderOutcome
  pub references : Dict K R
  pub planned : Dict K ProviderOutcome

abbrev pub get_or : {A : Type 0} → Option A → A → A
get_or none d = d
get_or (some a) d = a

-- `reference` Lasts for the prefix and the truncated SHA-256 digest of the key.
module _ {K R : Type 0} ⦃e : Eq K⦄ (reference : K → R) where
  abbrev run_new_mock : K → MockProvider K R → ProviderOutcome × MockProvider K R
  run_new_mock k s = (
    s.outcome,
    record s {
      calls = s.calls + 1;
      results = insert k s.outcome s.results;
      references = insert k (reference k) s.references;
    },
  )

  -- `MockProvider._run`
  unfoldable pub run_mock : K → MockProvider K R → ProviderOutcome × MockProvider K R
  run_mock k s = elim (lookup k s.results) [ some r ↦ (r, s) | none ↦ run_new_mock k s ]

  abbrev run_new_sandbox : K → SandboxProvider K R → ProviderOutcome × SandboxProvider K R
  run_new_sandbox k s =
      let outcome = get_or (lookup k s.planned) s.default_outcome in
      (
        outcome,
        record s {
          calls = s.calls + 1;
          results = insert k outcome s.results;
          references = insert k (reference k) s.references;
        },
      )

  -- `SandboxProvider._run`
  unfoldable pub run_sandbox : K → SandboxProvider K R → ProviderOutcome × SandboxProvider K R
  run_sandbox k s = elim (lookup k s.results) [ some r ↦ (r, s) | none ↦ run_new_sandbox k s ]

module _ {K R : Type 0} ⦃e : Eq K⦄ where
  -- `SandboxProvider.plan`
  unfoldable pub plan : K → ProviderOutcome → SandboxProvider K R → SandboxProvider K R
  plan k outcome s = record s { planned = insert k outcome s.planned }

  -- `MockProvider.reference_for`
  unfoldable pub reference_for : K → MockProvider K R → Option R
  reference_for k s = lookup k s.references

module _ {I K R : Type 0} ⦃e : Eq K⦄ (reference : K → R) where
  -- The four methods of `MockProvider`.
  abbrev pub mock : PaymentProvider (MockProvider K R) I K
  mock = record {
    charge = λ o. run_mock reference o.idempotency_key;
    capture = λ o. run_mock reference o.idempotency_key;
    void = λ o. run_mock reference o.idempotency_key;
    refund = λ o. run_mock reference o.idempotency_key;
  }

  -- The four methods of `SandboxProvider`.
  abbrev pub sandbox : PaymentProvider (SandboxProvider K R) I K
  sandbox = record {
    charge = λ o. run_sandbox reference o.idempotency_key;
    capture = λ o. run_sandbox reference o.idempotency_key;
    void = λ o. run_sandbox reference o.idempotency_key;
    refund = λ o. run_sandbox reference o.idempotency_key;
  }
