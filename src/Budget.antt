-- ===== src/Budget.antt =====
-- reference/implementation/src/agent_pay/budget.py: the in-memory budget. Every method holds the
-- lock while it runs, so threads interleave as a sequence of whole calls.
pub mod Invariant
mod Tests
use agent_pay.Prelude.{
  ℤ, pos, ◌+ℤ◌, ◌-ℤ◌, ltb_ℤ, leb_ℤ, Bool, true, false, List, [], ◌∷◌, Error, Result, ok, err,
  if◌then◌else◌,
}
use agent_pay.Prelude.Errors.{Error.value_error}

pub record Budget : Type 0 where
  pub limit : ℤ
  pub consumed : ℤ
  pub reserved : ℤ

abbrev pub available : Budget → ℤ
available b = b.limit -ℤ b.consumed -ℤ b.reserved

-- The reply and the budget after the call.
unfoldable pub reserve : ℤ → Budget → Result (Bool × Budget)
reserve amount b =
    if leb_ℤ amount (pos 0)
    then err (value_error "reservation amount must be positive")
    else if ltb_ℤ (available b) amount
    then ok (false, b)
    else ok (true, record b { reserved = b.reserved +ℤ amount })

unfoldable pub release : ℤ → Budget → Result Budget
release amount b =
    if ltb_ℤ b.reserved amount
    then err (value_error "cannot release more than reserved")
    else ok (record b { reserved = b.reserved -ℤ amount })

unfoldable pub consume : ℤ → Budget → Result Budget
consume amount b =
    if ltb_ℤ b.reserved amount
    then err (value_error "cannot consume more than reserved")
    else ok (record b { reserved = b.reserved -ℤ amount; consumed = b.consumed +ℤ amount })

-- One call by some thread.
pub data Call : Type 0 where
  reserving releasing consuming : ℤ → Call

-- The budget that a call leaves: a raise leaves it as it was.
unfoldable pub after : Budget → Call → Budget
after b (reserving a) = elim (reserve a b) [ ok r ↦ r.1 | err e ↦ b ]
after b (releasing a) = elim (release a b) [ ok c ↦ c | err e ↦ b ]
after b (consuming a) = elim (consume a b) [ ok c ↦ c | err e ↦ b ]

-- The calls of all threads in the order in which they took the lock.
unfoldable pub after_all : Budget → List Call → Budget
after_all b [] = b
after_all b (c ∷ cs) = after_all (after b c) cs
