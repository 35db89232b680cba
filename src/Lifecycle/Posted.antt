-- ===== src/Lifecycle/Posted.antt =====
-- The transactions table: what is refunded of a payment stays within what is captured.
use mathlib.Core.Path.{subst}
use agent_pay.Prelude.{
  ℕ, ◌+◌, ℤ, pos, ◌+ℤ◌, ◌-ℤ◌, ◌≤ℤ◌, ◌<ℤ◌, int_laws, Option, some, lookup, modify, append_row,
  sum_rows, sum_rows-append_row, sum_rows-enters, sum_rows-stays, AllRows, AllRows-append_row,
  AllRows-modify, Table, Below, Distinct, Below-append_row, Distinct-append_row, Below-modify,
  Distinct-modify, Below-suc, ◌==◌, ℕ_eq, eq_of_discrete, Bool, true, false, ◌&&◌, Bool-cases, inl,
  inr, ◌≡◌, refl, ◌∙◌, arith, if◌then◌else◌, nat_eq,
}
use agent_pay.Store.{
  Transaction, TransactionStatus, TransactionStatus_eq, TransactionStatus-discrete, OperationType,
  OperationType_eq, OperationType-discrete, Key, plain, detailed,
}

abbrev pub counts : ℕ → OperationType → Transaction → Bool
counts payment type t =
    t.payment_id == payment && t.operation_type == type && t.status == TransactionStatus.posted

-- What the posted transactions of one type of a payment add up to.
abbrev pub posted : ℕ → OperationType → Table Transaction → ℤ
posted payment type rows = sum_rows (counts payment type) (λ t. t.amount) rows

-- The key of a refund tells the payment and the amount.
abbrev pub FitsKey : Key → Transaction → Type 0
FitsKey (plain k p) t = Unit
FitsKey (detailed k p a c) t =
    (t.payment_id ≡ p) × (t.operation_type ≡ OperationType.refund) × (t.amount ≡ a.value)

abbrev pub Fits : Transaction → Type 0
Fits t = FitsKey t.idempotency_key t

pub record IsCovered (next : ℕ) (rows : Table Transaction) : Type 0 where
  pub below : Below next rows
  pub distinct : Distinct rows
  pub fits : AllRows Fits rows
  pub within :
      (payment : ℕ)
      → posted payment OperationType.refund rows ≤ℤ posted payment OperationType.capture rows

pub type_facts :
    ((OperationType.capture == OperationType.refund) ≡ false)
    × ((OperationType.refund == OperationType.capture) ≡ false)
    × ((OperationType.void == OperationType.refund) ≡ false)
    × ((OperationType.void == OperationType.capture) ≡ false)
    × ((OperationType.refund == OperationType.refund) ≡ true)
    × ((TransactionStatus.failed == TransactionStatus.posted) ≡ false)
    × ((TransactionStatus.pending == TransactionStatus.posted) ≡ false)
    × ((TransactionStatus.posted == TransactionStatus.posted) ≡ true)
unfolding OperationType-discrete TransactionStatus-discrete eq_of_discrete
type_facts = (refl, refl, refl, refl, refl, refl, refl, refl)

abbrev weight : ℕ → OperationType → Transaction → ℤ
weight payment type t = if counts payment type t then t.amount else pos 0

-- A row that weighs on the refunds no more than on the captures.
abbrev pub IsHarmless : Transaction → Type 0
IsHarmless t =
    (payment : ℕ) → weight payment OperationType.refund t ≤ℤ weight payment OperationType.capture t

add_within : (r c x y : ℤ) → r ≤ℤ c → x ≤ℤ y → r +ℤ x ≤ℤ c +ℤ y
add_within r c x y h k = omega int_laws

pub append_row-IsCovered :
    (next : ℕ) (t : Transaction) (rows : Table Transaction)
    → Fits t
    → IsHarmless t
    → IsCovered next rows
    → IsCovered (next + 1) (append_row next t rows)
append_row-IsCovered next t rows fit harmless h = record {
  below = Below-append_row next t rows h.below;
  distinct = Distinct-append_row next t rows h.below h.distinct;
  fits = AllRows-append_row Fits next t rows h.fits fit;
  within = λ payment.
      rw
        (
          sum_rows-append_row (counts payment OperationType.refund) (λ t. t.amount) next t rows,
          sum_rows-append_row (counts payment OperationType.capture) (λ t. t.amount) next t rows,
        )
        (add_within _ _ _ _ (h.within payment) (harmless payment));
}

pub suc-IsCovered :
    (next : ℕ) (rows : Table Transaction) → IsCovered next rows → IsCovered (next + 1) rows
suc-IsCovered next rows h = record {
  below = Below-suc next rows h.below;
  distinct = h.distinct;
  fits = h.fits;
  within = h.within;
}

pub unposted-IsHarmless :
    (t : Transaction) → (t.status == TransactionStatus.posted) ≡ false → IsHarmless t
unposted-IsHarmless t h payment = ground arith

pub posted-IsHarmless :
    (t : Transaction)
    → pos 0 <ℤ t.amount
    → (t.operation_type == OperationType.refund) ≡ false
    → IsHarmless t
posted-IsHarmless t positive h payment = ground arith

FitsKey-same :
    (k : Key) (t u : Transaction)
    → u.payment_id ≡ t.payment_id
    → u.operation_type ≡ t.operation_type
    → u.amount ≡ t.amount
    → FitsKey k t
    → FitsKey k u
FitsKey-same (plain k p) t u a b c h = tt
FitsKey-same (detailed k p x y) t u a b c h = (a ∙ h.0, b ∙ h.1, c ∙ h.2)

pub posted-unposted :
    (payment next : ℕ) (type : OperationType) (t : Transaction) (rows : Table Transaction)
    → (t.status == TransactionStatus.posted) ≡ false
    → posted payment type (append_row next t rows) ≡ posted payment type rows
posted-unposted payment next type t rows out =
    sum_rows-append_row (counts payment type) (λ t. t.amount) next t rows
    ∙ add_nothing (counts payment type t) t.amount (posted payment type rows) (ground arith)
  where
    add_nothing : (b : Bool) (a x : ℤ) → b ≡ false → x +ℤ (if b then a else pos 0) ≡ x
    add_nothing true a x e = cc
    add_nothing false a x e = grind int_laws

-- Another status, and another time of posting.
abbrev pub restate : TransactionStatus → (Transaction → Option ℕ) → Transaction → Transaction
restate status at t = record t { status = status; posted_at = at t }

total_within : (r c a : ℤ) → a ≤ℤ c -ℤ r → r +ℤ a ≤ℤ c
total_within r c a h = omega int_laws

-- A pending refund gets its final status.
module _ (id : ℕ) (v : Transaction) (at : Transaction → Option ℕ) (next : ℕ)
    (rows : Table Transaction) (h : IsCovered next rows) (found : lookup id rows ≡ some v)
    (is_refund : v.operation_type ≡ OperationType.refund)
    (is_pending : v.status ≡ TransactionStatus.pending) where
  captures_stay :
      (status : TransactionStatus) (payment : ℕ)
      → posted payment OperationType.capture (modify id (restate status at) rows)
        ≡ posted payment OperationType.capture rows
  captures_stay status payment =
      sum_rows-stays (counts payment OperationType.capture) (λ t. t.amount) id (restate status at) v
        rows found (ground (arith, type_facts)) (ground (arith, type_facts))

  refunds_stay :
      (status : TransactionStatus) (payment : ℕ)
      → (nat_eq v.payment_id payment && (status == TransactionStatus.posted)) ≡ false
      → posted payment OperationType.refund (modify id (restate status at) rows)
        ≡ posted payment OperationType.refund rows
  refunds_stay status payment out =
      sum_rows-stays (counts payment OperationType.refund) (λ t. t.amount) id (restate status at) v
        rows found (ground (arith, type_facts)) (ground (arith, type_facts))

  refunds_grow :
      posted v.payment_id OperationType.refund
        (modify id (restate TransactionStatus.posted at) rows)
      ≡ posted v.payment_id OperationType.refund rows +ℤ v.amount
  refunds_grow =
      sum_rows-enters (counts v.payment_id OperationType.refund) (λ t. t.amount) id
        (restate TransactionStatus.posted at) v rows found (ground (arith, type_facts))
        (ground (arith, type_facts))

  restated :
      (status : TransactionStatus)
      → ((payment : ℕ)
          → posted payment OperationType.refund (modify id (restate status at) rows)
            ≤ℤ posted payment OperationType.capture (modify id (restate status at) rows))
      → IsCovered next (modify id (restate status at) rows)
  restated status within = record {
    below = Below-modify next id (restate status at) rows h.below;
    distinct = Distinct-modify id (restate status at) rows h.distinct;
    fits =
        AllRows-modify Fits id (restate status at) rows
          (λ t k. FitsKey-same t.idempotency_key t (restate status at t) refl refl refl k) h.fits;
    within = within;
  }

  pub failed-IsCovered : IsCovered next (modify id (restate TransactionStatus.failed at) rows)
  failed-IsCovered = restated TransactionStatus.failed (λ payment.
      rw
        (
          captures_stay TransactionStatus.failed payment,
          refunds_stay TransactionStatus.failed payment (ground (arith, type_facts)),
        )
        (h.within payment))

  -- There is room for the refund.
  pub posted-IsCovered :
      v.amount
        ≤ℤ posted v.payment_id OperationType.capture rows
          -ℤ posted v.payment_id OperationType.refund rows
      → IsCovered next (modify id (restate TransactionStatus.posted at) rows)
  posted-IsCovered room = restated TransactionStatus.posted (λ payment.
      elim (Bool-cases (nat_eq v.payment_id payment)) [
        | inl own ↦
            let same : v.payment_id ≡ payment = ground arith in
            subst
              (λ p.
                posted p OperationType.refund (modify id (restate TransactionStatus.posted at) rows)
                ≤ℤ posted p OperationType.capture
                    (modify id (restate TransactionStatus.posted at) rows))
              same
              (rw (captures_stay TransactionStatus.posted v.payment_id, refunds_grow)
                (total_within _ _ _ room))
        | inr other ↦
            rw
              (
                captures_stay TransactionStatus.posted payment,
                refunds_stay TransactionStatus.posted payment (rw other),
              )
              (h.within payment)
      ])
