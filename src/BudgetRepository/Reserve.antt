-- ===== src/BudgetRepository/Reserve.antt =====
-- `reserve` grants what is available and refuses the rest.
use agent_pay.Prelude.{
  ℕ, ◌+◌, ℤ, pos, ◌+ℤ◌, ◌≤ℤ◌, ◌<ℤ◌, ltb_ℤ, leb_ℤ, ◌==◌, ℕ_eq, List_eq, strip, upper, Bool, none,
  some, lookup, modify, append_row, ◌⊎◌, ◌≡◌, refl, arith, Bool-cases, Option-cases, inl, inr, ok,
}
use agent_pay.Prelude.Exec.{◌>>=◌, update, raise_if}
use agent_pay.BudgetRepository.{
  available, request_currency, new_reservation, is_taken, update_budget, insert_reservation,
  reserve_in, reserve,
}
use agent_pay.BudgetRepository.Accounting.{reserve-IsAccounted}
use agent_pay.BudgetRepository.Operations.{Accounted}
use agent_pay.Store.{Db, Budget, ReservationStatus_eq, fresh_id}

abbrev pub hold : Db → ℤ → Budget → Budget
hold db a b = record b { reserved_amount = b.reserved_amount +ℤ a; updated_at = db.now }

-- The database after a granted reservation, whose id is the next one.
abbrev pub reserved_db : Db → ℕ → ℕ → ℤ → Budget → Db
reserved_db db budget request a row = record db {
  next_id = db.next_id + 1;
  budget_reservations =
      append_row db.next_id (new_reservation row budget request a) db.budget_reservations;
  budgets = modify budget (hold db a) db.budgets;
}

module _ (budget request : ℕ) (a : ℤ) (row : Budget) (db : Db)
    (found : lookup budget db.budgets ≡ some row) where
  module _ (positive : pos 0 <ℤ a) (room : a ≤ℤ available row) where
    pub reserved_db-Accounted : Accounted db → Accounted (reserved_db db budget request a row)
    reserved_db-Accounted h =
        reserve-IsAccounted db.next_id (new_reservation row budget request a) (hold db a) db.budgets
          db.budget_reservations h refl (omega arith) (λ b. refl) (λ b. refl) (λ b. refl) row found
          room

  -- An amount beyond what is available is refused, and nothing changes.
  pub reserve-refuses : available row <ℤ a → reserve budget request a db ≡ (ok none, db)
  unfolding reserve reserve_in ◌>>=◌
  reserve-refuses short = ground arith

  abbrev agrees : Bool
  agrees = upper (strip row.currency) == request_currency (lookup request db.payment_requests)

  reserve-effect :
      ((reserve budget request a db).1 ≡ db)
      ⊎ ((pos 0 <ℤ a)
          × (a ≤ℤ available row)
          × ((reserve budget request a db).1 ≡ reserved_db db budget request a row))
  unfolding reserve reserve_in insert_reservation update_budget fresh_id ◌>>=◌ update raise_if
  reserve-effect = elim (Bool-cases (leb_ℤ a (pos 0))) [
    | inl nonpositive ↦ inl (ground arith)
    | inr positive ↦ elim (Bool-cases (ltb_ℤ (available row) a)) [
      | inl short ↦ inl (ground arith)
      | inr fits ↦ elim (Bool-cases agrees) [
        | inr mismatch ↦ inl (ground arith)
        | inl match ↦ elim (Bool-cases (is_taken budget request db.budget_reservations)) [
          | inl taken ↦ inl (ground arith)
          | inr free ↦ inr (ground arith, ground arith, ground arith)
        ]
      ]
    ]
  ]

module _ (budget request : ℕ) (a : ℤ) (db : Db) where
  reserve-unknown : lookup budget db.budgets ≡ none → reserve budget request a db ≡ (ok none, db)
  unfolding reserve reserve_in ◌>>=◌
  reserve-unknown missing = rw missing

  pub reserve-Accounted : Accounted db → Accounted (reserve budget request a db).1
  reserve-Accounted h = elim (Option-cases (lookup budget db.budgets)) [
    | inl missing ↦ rw (reserve-unknown missing) h
    | inr (row, found) ↦ elim (reserve-effect budget request a row db found) [
      | inl same ↦ rw same h
      | inr (positive, room, done) ↦
          rw done (reserved_db-Accounted budget request a row db found positive room h)
    ]
  ]
