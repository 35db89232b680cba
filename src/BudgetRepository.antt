-- ===== src/BudgetRepository.antt =====
-- reference/implementation/src/agent_pay/repositories.py: `class BudgetRepository`.
pub mod Accounting
pub mod Operations
pub mod Reserve
pub mod Schedule
mod Tests
use agent_pay.Prelude.{
  ℕ, ◌+◌, ℤ, pos, ◌+ℤ◌, ◌-ℤ◌, ltb_ℤ, leb_ℤ, Text, strip, upper, Eq, ◌==◌, List_eq, ℕ_eq, Bool, true,
  false, not, ◌&&◌, ◌||◌, Option, none, some, lookup, modify, append_row, find_row, [], Table,
}
use agent_pay.Prelude.Errors.{Error.value_error, Error.integrity_error}
use agent_pay.Prelude.Exec.{
  Exec, pure, raise, gets, or_raise, choose, ◌>>=◌, ◌>>◌, update, raise_if,
}
use agent_pay.Store.{
  Db, Budget, Reservation, PaymentRequest, ReservationStatus, ReservationStatus_eq,
  ReservationStatus.reserved, ReservationStatus.consumed, ReservationStatus.released, fresh_id,
}

-- `_request_currency`
abbrev pub request_currency : Option PaymentRequest → Text
request_currency none = []
request_currency (some r) = upper (strip r.currency)

abbrev pub available : Budget → ℤ
available b = b.limit_amount -ℤ b.consumed_amount -ℤ b.reserved_amount

abbrev pub is_none : {A : Type 0} → Option A → Bool
is_none none = true
is_none (some a) = false

-- The row of a new reservation, in the budget's own currency.
abbrev new_reservation : Budget → ℕ → ℕ → ℤ → Reservation
new_reservation row budget request amount = record {
  budget_id = budget;
  payment_request_id = request;
  amount = amount;
  currency = row.currency;
  status = reserved;
  consumed_at = none;
  released_at = none;
}

-- UNIQUE (budget_id, payment_request_id)
abbrev is_taken : ℕ → ℕ → Table Reservation → Bool
is_taken budget request t =
    not (is_none (find_row (λ r. r.budget_id == budget && r.payment_request_id == request) t))

-- CHECK (consumed_amount >= 0), CHECK (reserved_amount >= 0)
abbrev is_negative : Option Budget → Bool
is_negative none = false
is_negative (some b) = ltb_ℤ b.consumed_amount (pos 0) || ltb_ℤ b.reserved_amount (pos 0)

-- `UPDATE budgets SET ... WHERE id = budget`, with the table's checks.
unfoldable pub update_budget : ℕ → (Budget → Budget) → Exec Db (Unit {0})
update_budget budget f = do
  update (λ db. record db {
    budgets = modify budget (λ b. record (f b) { updated_at = db.now }) db.budgets;
  })
  bad ← gets (λ db. is_negative (lookup budget db.budgets))
  raise_if bad (integrity_error "budgets_check")

unfoldable pub insert_reservation : ℕ → ℕ → Reservation → Exec Db ℕ
insert_reservation budget request r = do
  raise_if (leb_ℤ r.amount (pos 0)) (integrity_error "budget_reservations_amount_check")
  taken ← gets (λ db. is_taken budget request db.budget_reservations)
  raise_if taken (integrity_error "budget_reservations_budget_id_payment_request_id_key")
  id ← fresh_id
  update (λ db. record db { budget_reservations = append_row id r db.budget_reservations })
  pure id

unfoldable pub reserve_in : Option Budget → ℕ → ℕ → ℤ → Exec Db (Option ℕ)
reserve_in none budget request requested = pure none
reserve_in (some row) budget request requested = do
  currency ← gets (λ db. request_currency (lookup request db.payment_requests))
  choose (not (upper (strip row.currency) == currency)) (pure none) (
      choose (ltb_ℤ (available row) requested) (pure none) (do
        id ← insert_reservation budget request (new_reservation row budget request requested)
        update_budget budget (λ b. record b { reserved_amount = b.reserved_amount +ℤ requested })
        pure (some id)))

-- `BudgetRepository.reserve`
unfoldable pub reserve : ℕ → ℕ → ℤ → Exec Db (Option ℕ)
reserve budget request requested = do
  row ← gets (λ db. lookup budget db.budgets)
  reserve_in row budget request requested

-- `BudgetRepository.consume`
unfoldable pub consume : ℕ → Exec Db (Unit {0})
consume reservation = do
  found ← gets (λ db. lookup reservation db.budget_reservations)
  row ← or_raise found (value_error "budget reservation not found")
  choose (not (row.status == reserved)) (pure tt) (do
    update (λ db. record db {
      budget_reservations =
          modify reservation (λ r. record r { status = consumed; consumed_at = some db.now })
            db.budget_reservations;
    })
    update_budget row.budget_id (λ b. record b {
      reserved_amount = b.reserved_amount -ℤ row.amount;
      consumed_amount = b.consumed_amount +ℤ row.amount;
    }))

-- `BudgetRepository.release`
unfoldable pub release : ℕ → Exec Db (Unit {0})
release reservation = do
  found ← gets (λ db. lookup reservation db.budget_reservations)
  row ← or_raise found (value_error "budget reservation not found")
  choose (not (row.status == reserved)) (pure tt) (do
    update (λ db. record db {
      budget_reservations =
          modify reservation (λ r. record r { status = released; released_at = some db.now })
            db.budget_reservations;
    })
    update_budget row.budget_id
        (λ b. record b { reserved_amount = b.reserved_amount -ℤ row.amount }))
