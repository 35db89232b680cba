-- ===== src/BudgetRepository/Operations.antt =====
-- The three operations keep the accounting of all budgets, and none can drive a budget negative.
use agent_pay.Prelude.{
  ℕ, ℤ, pos, ◌+ℤ◌, ◌-ℤ◌, ℕ_eq, none, some, lookup, modify, AllRows-lookup, ◌≢◌, err, ◌≡◌, refl,
  arith, Option-cases, inl, inr, ok,
}
use agent_pay.Prelude.Errors.{Error.value_error}
use agent_pay.Prelude.Exec.{◌>>=◌, update, raise_if}
use agent_pay.BudgetRepository.{update_budget, consume, release}
use agent_pay.BudgetRepository.Accounting.{
  consumed_own, released_own, add_zero, IsAccounted-not_negative, IsAccounted, status_facts,
  settle-IsAccounted,
}
use agent_pay.Store.{
  Budget, Reservation, ReservationStatus_eq, ReservationStatus-discrete, ReservationStatus.reserved,
  ReservationStatus.consumed, ReservationStatus.released, Db,
}

-- The budgets and the reservations of a database agree.
abbrev pub Accounted : Db → Type 0
Accounted db = IsAccounted db.budgets db.budget_reservations

-- The rows that `consume` and `release` write.
abbrev pub use_up : Db → ℤ → Budget → Budget
use_up db a b = record b {
  reserved_amount = b.reserved_amount -ℤ a;
  consumed_amount = b.consumed_amount +ℤ a;
  updated_at = db.now;
}

abbrev pub free : Db → ℤ → Budget → Budget
free db a b = record b { reserved_amount = b.reserved_amount -ℤ a; updated_at = db.now }

abbrev pub mark_consumed : Db → Reservation → Reservation
mark_consumed db r = record r { status = consumed; consumed_at = some db.now }

abbrev pub mark_released : Db → Reservation → Reservation
mark_released db r = record r { status = released; released_at = some db.now }

module _ (r : ℕ) (v : Reservation) (db : Db)
    (found : lookup r db.budget_reservations ≡ some v) where
  module _ (held : v.status ≡ reserved) where
    abbrev pub consumed_db : Db
    consumed_db = record db {
      budget_reservations = modify r (mark_consumed db) db.budget_reservations;
      budgets = modify v.budget_id (use_up db v.amount) db.budgets;
    }

    abbrev pub released_db : Db
    released_db = record db {
      budget_reservations = modify r (mark_released db) db.budget_reservations;
      budgets = modify v.budget_id (free db v.amount) db.budgets;
    }

    consumed_db-Accounted : Accounted db → Accounted consumed_db
    consumed_db-Accounted h =
        settle-IsAccounted r v (mark_consumed db) (use_up db v.amount) db.budgets
          db.budget_reservations h found held refl (λ w. refl) v.amount (omega arith) (λ b. refl)
          (λ b. refl) (λ b. refl) (status_facts.2)
          (λ budget own.
            consumed_own r v (mark_consumed db) (use_up db v.amount) db.budgets
              db.budget_reservations h found held refl (λ w. refl) budget own refl)

    released_db-Accounted : Accounted db → Accounted released_db
    released_db-Accounted h =
        settle-IsAccounted r v (mark_released db) (free db v.amount) db.budgets
          db.budget_reservations h found held refl (λ w. refl) (pos 0)
          (AllRows-lookup _ r db.budget_reservations h.amounts found) (λ b. refl)
          (λ b. add_zero b.consumed_amount) (λ b. refl) (status_facts.4)
          (λ budget own.
            released_own r v (mark_released db) (free db v.amount) db.budgets db.budget_reservations
              h found held refl (λ w. refl) budget own refl)

    -- A held reservation is consumed: the call returns, marks the reservation, and moves its amount
    -- from the reserved to the consumed part of its budget.
    pub consume-settles : Accounted db → consume r db ≡ (ok tt, consumed_db)
    unfolding consume update_budget ◌>>=◌ update raise_if
    consume-settles h = ground (
      arith,
      status_facts,
      IsAccounted-not_negative consumed_db.budgets consumed_db.budget_reservations v.budget_id
          (consumed_db-Accounted h),
    )

    -- A held reservation is released: the call returns, marks the reservation, and takes its amount
    -- off the reserved part of its budget.
    pub release-settles : Accounted db → release r db ≡ (ok tt, released_db)
    unfolding release update_budget ◌>>=◌ update raise_if
    release-settles h = ground (
      arith,
      status_facts,
      IsAccounted-not_negative released_db.budgets released_db.budget_reservations v.budget_id
          (released_db-Accounted h),
    )

  module _ (other : v.status ≢ reserved) where
    consume-skips : consume r db ≡ (ok tt, db)
    unfolding consume ◌>>=◌
    consume-skips = ground (arith, ReservationStatus_eq.beq_iff v.status reserved)

    release-skips : release r db ≡ (ok tt, db)
    unfolding release ◌>>=◌
    release-skips = ground (arith, ReservationStatus_eq.beq_iff v.status reserved)

module _ (r : ℕ) (db : Db) where
  consume-missing :
      lookup r db.budget_reservations ≡ none
      → consume r db ≡ (err (value_error "budget reservation not found"), db)
  unfolding consume ◌>>=◌
  consume-missing e = rw e

  release-missing :
      lookup r db.budget_reservations ≡ none
      → release r db ≡ (err (value_error "budget reservation not found"), db)
  unfolding release ◌>>=◌
  release-missing e = rw e

  pub consume-Accounted : Accounted db → Accounted (consume r db).1
  consume-Accounted h = elim (Option-cases (lookup r db.budget_reservations)) [
    | inl missing ↦ rw (consume-missing missing) h
    | inr (v, found) ↦ elim (ReservationStatus-discrete v.status reserved) [
      | yes held ↦
          rw (consume-settles r v db found held h) (consumed_db-Accounted r v db found held h)
      | no other ↦ rw (consume-skips r v db found other) h
    ]
  ]

  pub release-Accounted : Accounted db → Accounted (release r db).1
  release-Accounted h = elim (Option-cases (lookup r db.budget_reservations)) [
    | inl missing ↦ rw (release-missing missing) h
    | inr (v, found) ↦ elim (ReservationStatus-discrete v.status reserved) [
      | yes held ↦
          rw (release-settles r v db found held h) (released_db-Accounted r v db found held h)
      | no other ↦ rw (release-skips r v db found other) h
    ]
  ]
