-- ===== src/Budget/Tests.antt =====
-- Runs and instances for the in-memory budget.
use agent_pay.Prelude.{◌≡◌, refl, pos, ◌+ℤ◌, ◌-ℤ◌, true, ok, arith, List, [], ◌∷◌}
use agent_pay.Budget.{Budget, reserve, Call, reserving, releasing, consuming, after_all}
use agent_pay.Budget.Invariant.{IsValid, after_all-IsValid}

abbrev hundred : Budget
hundred = record { limit = pos 100; consumed = pos 0; reserved = pos 30 }

reserve_run : reserve (pos 70) hundred ≡ ok (true, record hundred { reserved = pos 100 })
unfolding reserve ◌+ℤ◌ ◌-ℤ◌
reserve_run = refl

abbrev calls : List Call
calls = reserving (pos 70) ∷ consuming (pos 20) ∷ releasing (pos 90) ∷ []

hundred-IsValid : IsValid hundred
unfolding ◌+ℤ◌
hundred-IsValid = omega arith

after_all-IsValid_example : IsValid (after_all hundred calls)
after_all-IsValid_example =
    after_all-IsValid hundred calls (tt, (omega arith, (omega arith, tt))) hundred-IsValid
