-- ===== src/BudgetRepository/Tests.antt =====
-- Runs and instances for the budgets table.
use agent_pay.Prelude.{
  ◌≡◌, refl, some, none, ok, List, [], ◌∷◌, lookup, arith, int_laws, ℕ_eq, List_eq,
}
use agent_pay.BudgetRepository.{consume, release}
use agent_pay.BudgetRepository.Operations.{
  Accounted, consumed_db, released_db, consume-settles, release-settles,
}
use agent_pay.BudgetRepository.Reserve.{reserved_db}
use agent_pay.BudgetRepository.Schedule.{
  Operation, reserving, consuming, releasing, after_all, after_all-Accounted,
}
use agent_pay.BudgetRepository.Reserve.{reserved_db-Accounted}
use agent_pay.Samples.{ten, usd, budget, with_payment, with_payment-Intact}
use agent_pay.Store.{Db, Status, Reservation, ReservationStatus}

abbrev start : Db
start = with_payment Status.requested

start-Accounted : Accounted start
start-Accounted = (with_payment-Intact Status.requested).budgets

abbrev operations : List Operation
operations = reserving 3 2 ten ∷ consuming 10 ∷ releasing 10 ∷ reserving 3 9 ten ∷ []

after_all-Accounted_example : Accounted (after_all start operations)
after_all-Accounted_example = after_all-Accounted start operations start-Accounted

budget_found : lookup 3 start.budgets ≡ some budget
unfolding lookup
budget_found = refl

abbrev held : Db
held = reserved_db start 3 2 ten budget

held-Accounted : Accounted held
held-Accounted =
    reserved_db-Accounted 3 2 ten budget start budget_found (omega arith) (omega int_laws)
      start-Accounted

abbrev reservation : Reservation
reservation = record {
  budget_id = 3;
  payment_request_id = 2;
  amount = ten;
  currency = usd;
  status = ReservationStatus.reserved;
  consumed_at = none;
  released_at = none;
}

reservation_found : lookup 10 held.budget_reservations ≡ some reservation
unfolding lookup
reservation_found = refl

consume-settles_example :
    consume 10 held ≡ (ok tt, consumed_db 10 reservation held reservation_found refl)
consume-settles_example = consume-settles 10 reservation held reservation_found refl held-Accounted

release-settles_example :
    release 10 held ≡ (ok tt, released_db 10 reservation held reservation_found refl)
release-settles_example = release-settles 10 reservation held reservation_found refl held-Accounted
