-- ===== src/Ledger.antt =====
-- reference/implementation/src/agent_pay/ledger.py: double-entry journals and the in-memory ledger.
pub mod Balance
mod Tests
use agent_pay.Prelude.{
  ℤ, pos, leb_ℤ, eq_ℤ, eq_ℤ_iff, Text, Eq, ◌==◌, List_eq, ℕ_eq, list_eq_iff, Bool, true, false, not,
  ◌&&◌, ◌||◌, List, [], ◌∷◌, any, sum_where, Dict, lookup, insert, Option, none, some, Result, ok,
  ◌≡◌, ◌↔◌, arith, err, if◌then◌else◌,
}
use agent_pay.Prelude.Errors.{Error.value_error, raise_if, ◌>>◌}

pub data Direction : Type 0 where
  debit credit : Direction

abbrev pub is_debit : Direction → Bool
is_debit debit = true
is_debit credit = false

abbrev pub is_credit : Direction → Bool
is_credit debit = false
is_credit credit = true

pub record Posting : Type 0 where
  pub account_id : Text
  pub direction : Direction
  pub amount : ℤ
  pub currency : Text

pub record Journal : Type 0 where
  pub journal_id : Text
  pub postings : List Posting

-- The equality of the frozen dataclasses.
abbrev pub direction_eq : Direction → Direction → Bool
direction_eq debit d = is_debit d
direction_eq credit d = is_credit d

direction_eq_iff : (d e : Direction) → (direction_eq d e ≡ true) ↔ (d ≡ e)
direction_eq_iff debit e = ground arith
direction_eq_iff credit e = ground arith

abbrev pub posting_eq : Posting → Posting → Bool
posting_eq p q =
    p.account_id == q.account_id
    && direction_eq p.direction q.direction
    && eq_ℤ p.amount q.amount
    && p.currency == q.currency

pub posting_eq_iff : (p q : Posting) → (posting_eq p q ≡ true) ↔ (p ≡ q)
posting_eq_iff p q = ground (
  arith,
  list_eq_iff p.account_id q.account_id,
  list_eq_iff p.currency q.currency,
  eq_ℤ_iff p.amount q.amount,
  direction_eq_iff p.direction q.direction,
)

instance abbrev pub Posting_eq : Eq Posting
Posting_eq = record { beq = posting_eq; beq_iff = posting_eq_iff }

abbrev pub journal_eq : Journal → Journal → Bool
journal_eq j k = j.journal_id == k.journal_id && j.postings == k.postings

-- `len({p.currency for p in postings}) != 1`, for postings that are there.
pub journal_eq_iff : (j k : Journal) → (journal_eq j k ≡ true) ↔ (j ≡ k)
journal_eq_iff j k =
    ground (arith, list_eq_iff j.journal_id k.journal_id, list_eq_iff j.postings k.postings)

abbrev pub mixed : List Posting → Bool
mixed [] = true
mixed (p ∷ ps) = any (λ q. not (q.currency == p.currency)) ps

unfoldable pub debits : List Posting → ℤ
debits = sum_where (λ p. is_debit p.direction) (λ p. p.amount)

unfoldable pub credits : List Posting → ℤ
credits = sum_where (λ p. is_credit p.direction) (λ p. p.amount)

abbrev is_nil : List Posting → Bool
is_nil [] = true
is_nil (p ∷ ps) = false

-- `Journal.validate`
unfoldable pub validate : Journal → Result (Unit {0})
validate j = do
  raise_if (is_nil j.postings) (value_error "journal must contain postings")
  raise_if (mixed j.postings) (value_error "journal must contain one currency")
  raise_if
      (leb_ℤ (debits j.postings) (pos 0)
        || leb_ℤ (credits j.postings) (pos 0)
        || not (eq_ℤ (debits j.postings) (credits j.postings)))
      (value_error "journal is not balanced")
  raise_if (any (λ p. leb_ℤ p.amount (pos 0)) j.postings)
      (value_error "posting amount must be positive")

abbrev pub InMemoryLedger : Type 0
InMemoryLedger = Dict Text Journal

unfoldable pub put : Journal → InMemoryLedger → Result InMemoryLedger
put j s = elim (lookup j.journal_id s) [
  | some k ↦ if journal_eq k j then ok s else err (value_error "journal id conflict")
  | none ↦ ok (insert j.journal_id j s)
]

-- `InMemoryLedger.post`
unfoldable pub post : Journal → InMemoryLedger → Result InMemoryLedger
post j s = validate j >> put j s
