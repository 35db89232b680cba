-- ===== src/BudgetRepository/Accounting.antt =====
-- The budgets table agrees with the reservations.
use agent_pay.Prelude.{
  ℕ, ℤ, pos, ◌+ℤ◌, ◌-ℤ◌, ◌≤ℤ◌, ltb_ℤ, ◌||◌, sum_rows_nonneg, int_laws, nat_eq, eq_of_discrete, ◌==◌,
  ℕ_eq, Bool, true, false, ◌&&◌, some, lookup, modify, modify_cases, append_row, sum_rows,
  sum_rows-leaves, sum_rows-enters, sum_rows-stays, sum_rows-append_row, AllRows, AllRows-modify,
  AllRows-append_row, Table, ◌≡◌, refl, sym, ap, ◌∙◌, arith, Option-cases, inl, inr, if◌then◌else◌,
}
use agent_pay.BudgetRepository.{available, is_negative}
use agent_pay.Store.{
  Budget, Reservation, ReservationStatus, ReservationStatus_eq, ReservationStatus-discrete,
  ReservationStatus.reserved, ReservationStatus.consumed, ReservationStatus.released,
}

abbrev is_held : ℕ → ReservationStatus → Reservation → Bool
is_held budget status r = r.budget_id == budget && r.status == status

-- What the reservations of a budget in one status add up to.
abbrev pub total : ℕ → ReservationStatus → Table Reservation → ℤ
total budget status = sum_rows (is_held budget status) (λ r. r.amount)

-- A budget row shows what its reservations hold and have used, and stays within its limit.
pub record Covers (budget : ℕ) (t : Table Reservation) (row : Budget) : Type 0 where
  pub reserved_sum : row.reserved_amount ≡ total budget reserved t
  pub consumed_sum : row.consumed_amount ≡ total budget consumed t
  pub within_limit : row.consumed_amount +ℤ row.reserved_amount ≤ℤ row.limit_amount

pub record IsAccounted (budgets : Table Budget) (t : Table Reservation) : Type 0 where
  pub amounts : AllRows (λ r. pos 0 ≤ℤ r.amount) t
  pub at_budget :
      (budget : ℕ) (row : Budget) → lookup budget budgets ≡ some row → Covers budget t row

pub status_facts :
    ((reserved == reserved) ≡ true)
    × ((consumed == consumed) ≡ true)
    × ((consumed == reserved) ≡ false)
    × ((reserved == consumed) ≡ false)
    × ((released == reserved) ≡ false)
    × ((released == consumed) ≡ false)
unfolding ReservationStatus-discrete eq_of_discrete
status_facts = (refl, refl, refl, refl, refl, refl)

pub add_zero : (a : ℤ) → a ≡ a +ℤ pos 0
add_zero a = omega int_laws

settled_within : (c r l used a : ℤ) → used ≤ℤ a → c +ℤ r ≤ℤ l → c +ℤ used +ℤ (r -ℤ a) ≤ℤ l
settled_within c r l used a h k = omega int_laws

-- Settling a held reservation: its row `r` changes status, and its budget's row changes with it.
module _ (r : ℕ) (v : Reservation) (g : Reservation → Reservation) (f : Budget → Budget)
    (budgets : Table Budget) (t : Table Reservation) (h : IsAccounted budgets t)
    (found : lookup r t ≡ some v) (was : v.status ≡ reserved)
    (keeps_budget : (g v).budget_id ≡ v.budget_id)
    (keeps_amount : (w : Reservation) → (g w).amount ≡ w.amount) where
  Covers-other :
      (budget : ℕ) (row : Budget)
      → nat_eq v.budget_id budget ≡ false
      → Covers budget t row
      → Covers budget (modify r g t) row
  Covers-other budget row other c =
      let same = λ (status : ReservationStatus).
        sum_rows-stays (is_held budget status) (λ r. r.amount) r g v t found (ground arith)
          (ground arith) in
      record {
        reserved_sum = c.reserved_sum ∙ sym (same reserved);
        consumed_sum = c.consumed_sum ∙ sym (same consumed);
        within_limit = c.within_limit;
      }

  reserved_own :
      (budget : ℕ)
      → nat_eq v.budget_id budget ≡ true
      → ((g v).status == reserved) ≡ false
      → total budget reserved (modify r g t) ≡ total budget reserved t -ℤ v.amount
  reserved_own budget own left =
      sum_rows-leaves (is_held budget reserved) (λ r. r.amount) r g v t found
        (ground (arith, status_facts)) (ground arith)

  pub consumed_own :
      (budget : ℕ)
      → nat_eq v.budget_id budget ≡ true
      → (g v).status ≡ consumed
      → total budget consumed (modify r g t) ≡ total budget consumed t +ℤ v.amount
  consumed_own budget own used =
      sum_rows-enters (is_held budget consumed) (λ r. r.amount) r g v t found
        (ground (arith, status_facts)) (ground (arith, status_facts))
      ∙ ap (λ x. total budget consumed t +ℤ x) (keeps_amount v)

  pub released_own :
      (budget : ℕ)
      → nat_eq v.budget_id budget ≡ true
      → (g v).status ≡ released
      → total budget consumed (modify r g t) ≡ total budget consumed t +ℤ pos 0
  released_own budget own freed =
      sum_rows-stays (is_held budget consumed) (λ r. r.amount) r g v t found
        (ground (arith, status_facts)) (ground (arith, status_facts))
      ∙ add_zero (total budget consumed t)

  -- `used` is what the settlement adds to the consumed amount.
  module _ (used : ℤ) (in_part : used ≤ℤ v.amount)
      (reserved_after : (b : Budget) → (f b).reserved_amount ≡ b.reserved_amount -ℤ v.amount)
      (consumed_after : (b : Budget) → (f b).consumed_amount ≡ b.consumed_amount +ℤ used)
      (limit_after : (b : Budget) → (f b).limit_amount ≡ b.limit_amount)
      (left : ((g v).status == reserved) ≡ false)
      (consumed_sum : (budget : ℕ)
        → nat_eq v.budget_id budget ≡ true
        → total budget consumed (modify r g t) ≡ total budget consumed t +ℤ used) where
    Covers-own :
        (budget : ℕ) (row : Budget)
        → nat_eq v.budget_id budget ≡ true
        → Covers budget t row
        → Covers budget (modify r g t) (f row)
    Covers-own budget row own c = record {
      reserved_sum =
          reserved_after row
          ∙ ap (λ x. x -ℤ v.amount) c.reserved_sum
          ∙ sym (reserved_own budget own left);
      consumed_sum =
          consumed_after row ∙ ap (λ x. x +ℤ used) c.consumed_sum ∙ sym (consumed_sum budget own);
      within_limit =
          rw (reserved_after row, consumed_after row, limit_after row)
            (settled_within row.consumed_amount row.reserved_amount row.limit_amount used v.amount
              in_part c.within_limit);
    }

    pub settle-IsAccounted : IsAccounted (modify v.budget_id f budgets) (modify r g t)
    settle-IsAccounted = record {
      amounts = AllRows-modify _ r g t (λ w n. rw (keeps_amount w) n) h.amounts;
      at_budget = λ budget row e. elim (modify_cases v.budget_id budget f row budgets e) [
        | inl (other, there) ↦ Covers-other budget row other (h.at_budget budget row there)
        | inr (own, (b, there, now)) ↦ rw now (Covers-own budget b own (h.at_budget budget b there))
      ];
    }

not_negative : (c r : ℤ) → pos 0 ≤ℤ c → pos 0 ≤ℤ r → (ltb_ℤ c (pos 0) || ltb_ℤ r (pos 0)) ≡ false
not_negative c r h k = ground arith

reserved_within : (l c r a : ℤ) → a ≤ℤ l -ℤ c -ℤ r → c +ℤ (r +ℤ a) ≤ℤ l
reserved_within l c r a h = omega int_laws

-- A new reservation of an amount that is available.
module _ (id : ℕ) (v : Reservation) (f : Budget → Budget) (budgets : Table Budget)
    (t : Table Reservation) (h : IsAccounted budgets t) (new : v.status ≡ reserved)
    (nonneg : pos 0 ≤ℤ v.amount)
    (reserved_after : (b : Budget) → (f b).reserved_amount ≡ b.reserved_amount +ℤ v.amount)
    (consumed_after : (b : Budget) → (f b).consumed_amount ≡ b.consumed_amount)
    (limit_after : (b : Budget) → (f b).limit_amount ≡ b.limit_amount) where
  total-append :
      (budget : ℕ) (status : ReservationStatus) (x : ℤ)
      → (if is_held budget status v then v.amount else pos 0) ≡ x
      → total budget status (append_row id v t) ≡ total budget status t +ℤ x
  total-append budget status x e =
      sum_rows-append_row (is_held budget status) (λ r. r.amount) id v t
      ∙ ap (λ y. total budget status t +ℤ y) e

  append_other :
      (budget : ℕ) (row : Budget)
      → nat_eq v.budget_id budget ≡ false
      → Covers budget t row
      → Covers budget (append_row id v t) row
  append_other budget row other c =
      let same = λ (status : ReservationStatus).
        total-append budget status (pos 0) (rw other) ∙ sym (add_zero (total budget status t)) in
      record {
        reserved_sum = c.reserved_sum ∙ sym (same reserved);
        consumed_sum = c.consumed_sum ∙ sym (same consumed);
        within_limit = c.within_limit;
      }

  append_own :
      (budget : ℕ) (row : Budget)
      → nat_eq v.budget_id budget ≡ true
      → v.amount ≤ℤ available row
      → Covers budget t row
      → Covers budget (append_row id v t) (f row)
  append_own budget row own room c = record {
    reserved_sum =
        reserved_after row
        ∙ ap (λ x. x +ℤ v.amount) c.reserved_sum
        ∙ sym (total-append budget reserved v.amount (rw (own, new, status_facts.0)));
    consumed_sum =
        consumed_after row
        ∙ c.consumed_sum
        ∙ add_zero (total budget consumed t)
        ∙ sym (total-append budget consumed (pos 0) (rw (own, new, status_facts.3)));
    within_limit =
        rw (reserved_after row, consumed_after row, limit_after row)
          (reserved_within row.limit_amount row.consumed_amount row.reserved_amount v.amount room);
  }

  pub reserve-IsAccounted :
      (row : Budget)
      → lookup v.budget_id budgets ≡ some row
      → v.amount ≤ℤ available row
      → IsAccounted (modify v.budget_id f budgets) (append_row id v t)
  reserve-IsAccounted row there room = record {
    amounts = AllRows-append_row _ id v t h.amounts nonneg;
    at_budget = λ budget w e. elim (modify_cases v.budget_id budget f w budgets e) [
      | inl (other, found) ↦ append_other budget w other (h.at_budget budget w found)
      | inr (own, (b, found, now)) ↦
          let same : b ≡ row = ground (arith, there, found, own) in
          rw now (append_own budget b own (rw same room) (h.at_budget budget b found))
    ];
  }

-- No row of a budgets table that agrees with its reservations violates the table's checks.
pub IsAccounted-not_negative :
    (budgets : Table Budget) (t : Table Reservation) (budget : ℕ)
    → IsAccounted budgets t
    → is_negative (lookup budget budgets) ≡ false
IsAccounted-not_negative budgets t budget h = elim (Option-cases (lookup budget budgets)) [
  | inl missing ↦ rw missing
  | inr (row, found) ↦
      let c = h.at_budget budget row found in
      rw found (
        not_negative row.consumed_amount row.reserved_amount
          (rw c.consumed_sum
            (sum_rows_nonneg (is_held budget consumed) (λ r. r.amount) t h.amounts))
          (rw c.reserved_sum
            (sum_rows_nonneg (is_held budget reserved) (λ r. r.amount) t h.amounts)))
]
