-- ===== src/Policy/Tests.antt =====
-- Instances for spending policies.
use mathlib.Core.Path.{subst}
use agent_pay.Prelude.{
  elem, ap, Option, ◌+◌, ◌≤◌, pos, codes, some, none, [], ◌∷◌, ◌≡◌, ◌≢◌, ◌↔◌, ◌⊎◌, refl, true,
  false, leb, arith, if◌then◌else◌, strip, upper, lower, list_eq, List_eq, ℕ_eq, or_none,
}
use agent_pay.Domain.{Decision, PaymentIntent}
use agent_pay.Policy.{SpendingPolicy, evaluate, time_in_window}
use agent_pay.Policy.Decisions.{Permits, IsAbove, evaluate_iff, evaluate-grades, time_in_window_iff}
use agent_pay.Samples.{ten, usd}

-- At most a hundred dollars; an approval above five.
abbrev policy : SpendingPolicy
policy = record {
  per_transaction_limit = pos 1000000;
  notify_above = none;
  approval_above = some (pos 50000);
  allowed_categories = none;
  denied_categories = [];
  allowed_domains = none;
  denied_domains = codes "bad.example" ∷ [];
  allowed_currencies = some (usd ∷ []);
  denied_currencies = [];
  allowed_regions = none;
  denied_regions = [];
  allowed_instrument_classes = none;
  denied_instrument_classes = [];
  allowed_weekdays = none;
  start_time = none;
  end_time = none;
}

abbrev intent : PaymentIntent
intent = record {
  payment_id = codes "p";
  agent_id = codes "a";
  amount = record { value = ten; currency = usd };
  merchant_domain = codes "shop.example";
  idempotency_key = codes "k";
  merchant_category = none;
  region = none;
  instrument_class = none;
  requested_at = none;
}

value_or : {A : Type 0} → A → Option A → A
value_or d none = d
value_or d (some a) = a

some_injective : {A : Type 0} (x y : A) → some x ≡ some y → x ≡ y
unfolding value_or
some_injective x y e = ap (value_or x) e

intent-Permits : Permits policy intent none
unfolding strip upper lower list_eq or_none
intent-Permits = record {
  configured = omega arith;
  within = omega arith;
  currency = record {
    not_denied = λ x e. refl;
    listed =
        λ l e. (usd, refl, subst (λ k. elem usd k ≡ true) (some_injective (usd ∷ []) l e) refl);
  };
  category = record { not_denied = λ x e. refl; listed = λ l e. cc };
  domain = record {
    not_denied =
        λ x e. subst (λ y. elem y policy.denied_domains ≡ false) (some_injective _ x e) refl;
    listed = λ l e. cc;
  };
  region = record { not_denied = λ x e. refl; listed = λ l e. cc };
  instrument = record { not_denied = λ x e. refl; listed = λ l e. cc };
  weekday = tt;
  window = tt;
}

evaluate_iff_example : (evaluate policy intent none ≢ Decision.deny) ↔ Permits policy intent none
evaluate_iff_example = evaluate_iff policy intent none

evaluate-grades_example :
    ((evaluate policy intent none ≡ Decision.require_approval)
      ↔ (Permits policy intent none × IsAbove intent.amount.value policy.approval_above))
    × ((evaluate policy intent none ≡ Decision.allow_notify) ↔ (
        Permits policy intent none
        × ¬ IsAbove intent.amount.value policy.approval_above
        × IsAbove intent.amount.value policy.notify_above))
    × ((evaluate policy intent none ≡ Decision.allow_auto) ↔ (
        Permits policy intent none
        × ¬ IsAbove intent.amount.value policy.approval_above
        × ¬ IsAbove intent.amount.value policy.notify_above))
evaluate-grades_example = evaluate-grades policy intent none

to_approve : evaluate policy intent none ≡ Decision.require_approval
to_approve = (evaluate-grades policy intent none).0.1 (intent-Permits, (_, refl, omega arith))

time_in_window_iff_example : (time_in_window 1 (some 22) (some 6) ≡ true) ↔ (
    (22 ≤ 1) × (1 ≤ (if leb 22 6 then 6 else 6 + 24))
    ⊎ (22 ≤ 1 + 24) × (1 + 24 ≤ (if leb 22 6 then 6 else 6 + 24)))
time_in_window_iff_example = time_in_window_iff 24 1 22 6 (omega arith) (omega arith) (omega arith)
