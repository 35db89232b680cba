-- ===== src/Budget/Invariant.antt =====
-- The accounting of an in-memory budget.
use agent_pay.Prelude.{
  ℤ, pos, ◌+ℤ◌, ◌-ℤ◌, ◌≤ℤ◌, ◌<ℤ◌, int_laws, ◌≡◌, ◌↔◌, true, List, [], ◌∷◌, All, ok,
}
use agent_pay.Budget.{
  Budget, available, reserve, release, consume, Call, reserving, releasing, consuming, after,
  after_all,
}

-- What is spent and what is set aside never pass the limit, and neither is negative.
pub record IsValid (b : Budget) : Type 0 where
  pub consumed_nonneg : pos 0 ≤ℤ b.consumed
  pub reserved_nonneg : pos 0 ≤ℤ b.reserved
  pub within_limit : b.consumed +ℤ b.reserved ≤ℤ b.limit

-- `release` and `consume` do not check the sign of their amount: their callers have to.
abbrev pub IsNonneg : Call → Type 0
IsNonneg (reserving a) = Unit
IsNonneg (releasing a) = pos 0 ≤ℤ a
IsNonneg (consuming a) = pos 0 ≤ℤ a

after-IsValid : (b : Budget) (c : Call) → IsNonneg c → IsValid b → IsValid (after b c)
unfolding after reserve release consume
after-IsValid b (reserving a) n h = grind int_laws
after-IsValid b (releasing a) n h = grind int_laws
after-IsValid b (consuming a) n h = grind int_laws

-- What is spent and set aside in a valid budget stays nonnegative and within the limit, whatever
-- amounts threads reserve, and whatever nonnegative amounts they release and consume, in any order
-- of whole calls.
pub after_all-IsValid :
    (b : Budget) (cs : List Call) → All IsNonneg cs → IsValid b → IsValid (after_all b cs)
unfolding after_all
after_all-IsValid b [] n h = h
after_all-IsValid b (c ∷ cs) n h = after_all-IsValid (after b c) cs n.1 (after-IsValid b c n.0 h)

after-consumed : (b : Budget) (c : Call) → IsNonneg c → b.consumed ≤ℤ (after b c).consumed
unfolding after reserve release consume
after-consumed b (reserving a) n = grind int_laws
after-consumed b (releasing a) n = grind int_laws
after-consumed b (consuming a) n = grind int_laws

-- A positive amount is reserved exactly when it is available.
pub reserve_iff :
    (a : ℤ) (b : Budget)
    → pos 0 <ℤ a
    → (reserve a b ≡ ok (true, record b { reserved = b.reserved +ℤ a })) ↔ (a ≤ℤ available b)
unfolding reserve
reserve_iff a b h = (λ e. grind int_laws, λ e. grind int_laws)

-- A reservation that is released leaves the budget as it was; one that is consumed moves its
-- amount from the available part to the consumed part.
pub reserve_settled :
    (a : ℤ) (b : Budget) (c : Budget)
    → reserve a b ≡ ok (true, c)
    → IsValid b
    → (release a c ≡ ok b) × (consume a c ≡ ok (record b { consumed = b.consumed +ℤ a }))
unfolding reserve release consume
reserve_settled a b c h v = (grind int_laws, grind int_laws)

-- Releasing a negative amount more than is available breaks the accounting of a valid budget.
pub release_negative :
    (a : ℤ) (b : Budget)
    → a <ℤ pos 0
    → IsValid b
    → (c : Budget) × (release a b ≡ ok c) × (available c ≡ available b +ℤ a)
unfolding release
release_negative a b n v = (record b { reserved = b.reserved -ℤ a }, grind int_laws, grind int_laws)
