-- ===== src/Settlement/Rounding.antt =====
-- A settlement's amount before and after it is stored.
use native.Mathlib.Nat.{le-div_iff_mul-le, div-lt_iff_lt-mul, pow-suc}
use agent_pay.Prelude.{
  ℕ, zero, suc, ◌+◌, ◌*◌, ◌/◌, ◌^◌, ◌<◌, ◌≤◌, ℤ, pos, negsuc, true, upper, strip, list_eq_iff,
  List_eq, ℕ_eq, none, ◌≡◌, arith,
}
use agent_pay.Settlement.{Decimal, eq_decimal, stored, compare_amounts, Report, reconciled}
use agent_pay.Store.{
  Payment, ProviderOperation, OperationStatus, OperationStatus_eq, ReconciliationStatus,
}

ten_pos : (k : ℕ) → 0 < 10 ^ k
ten_pos zero = ground arith
ten_pos (suc k) = let h = ten_pos k in ground (arith, pow-suc 10 k)

-- A whole number of ten-thousandths is not rounded.
whole : (a b n : ℕ) → 0 < b → a * b ≡ n * 10 ^ 4 → (2 * n * 10 ^ 4 + b) / (2 * b) ≡ a
whole a b n h e =
    let low : a ≤ (2 * n * 10 ^ 4 + b) / (2 * b) =
      (le-div_iff_mul-le {k = 2 * b} {x = a} {y = 2 * n * 10 ^ 4 + b} (omega arith)).1
        (omega arith) in
    let high : (2 * n * 10 ^ 4 + b) / (2 * b) < suc a =
      (div-lt_iff_lt-mul {k = 2 * b} {x = 2 * n * 10 ^ 4 + b} {y = suc a} (omega arith)).1
        (omega arith) in
    omega arith

-- A `Decimal` that equals a column's amount is stored as that amount.
stored_at :
    (a c : ℤ) (k : ℕ)
    → eq_decimal a (record { coefficient = c; places = k }) ≡ true
    → stored (record { coefficient = c; places = k }) ≡ a
stored_at (pos x) (pos n) k h =
    let b = ten_pos k in
    let e : x * 10 ^ k ≡ n * 10 ^ 4 = ground arith in
    rw (whole x (10 ^ k) n b e) (rw (whole 0 (10 ^ k) 0 b (omega arith)) (ground arith))
stored_at (pos x) (negsuc n) k h = absurd (ground arith)
stored_at (negsuc x) (pos n) k h = let b = ten_pos k in absurd (ground arith)
stored_at (negsuc x) (negsuc n) k h =
    let b = ten_pos k in
    let e : suc x * 10 ^ k ≡ suc n * 10 ^ 4 = ground arith in
    rw (whole (suc x) (10 ^ k) (suc n) b e) (rw (whole 0 (10 ^ k) 0 b (omega arith)) (ground arith))

stored_lem : (a : ℤ) (d : Decimal) → eq_decimal a d ≡ true → stored d ≡ a
stored_lem a d h = stored_at a d.coefficient d.places h

-- A reconciliation record that says MATCHED is about an operation that succeeded, shows the payment's
-- amount as what was observed, and has the payment's currency up to case and surrounding blanks and no
-- discrepancy code.
pub reconciled-matched :
    (settlement operation : ℕ) (o : ProviderOperation) (p : Payment) (r : Report)
    → (reconciled settlement operation o p r).status ≡ ReconciliationStatus.matched
    → (o.status ≡ OperationStatus.succeeded)
      × ((reconciled settlement operation o p r).observed_amount ≡ p.amount)
      × (upper (strip p.currency) ≡ upper (strip r.currency))
      × ((reconciled settlement operation o p r).discrepancy_code ≡ none)
unfolding compare_amounts
reconciled-matched settlement operation o p r h = ground (
  arith,
  OperationStatus_eq.beq_iff o.status OperationStatus.succeeded,
  list_eq_iff (upper (strip p.currency)) (upper (strip r.currency)),
  stored_lem p.amount r.amount,
)
