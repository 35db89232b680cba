-- ===== src/Journals.antt =====
-- `post_journal` of reference/implementation/src/agent_pay/ledger.py.
pub mod Trial
pub mod Idempotency
mod Tests
use agent_pay.Prelude.{
  ℕ, ℤ, pos, leb_ℤ, eq_ℤ, Text, ◌==◌, List_eq, ℕ_eq, Bool, true, false, not, ◌||◌, List, [], ◌∷◌,
  ◌++◌, any, sum_where, Option, none, some, find_row, append_row,
}
use agent_pay.Prelude.Errors.{Error.value_error, Error.integrity_error}
use agent_pay.Prelude.Exec.{Exec, pure, gets, ◌>>=◌, ◌>>◌, update, raise_if}
use agent_pay.Store.{
  Db, Journal, Posting, ReferenceType, Side, Side_eq, Side.debit, Side.credit, Key, Key_eq,
  fresh_id,
}

-- The dictionary that a caller passes for a posting.
pub record Draft : Type 0 where
  pub ledger_account_id : ℕ
  pub side : Side
  pub amount : ℤ
  pub currency : Text

abbrev pub draft_sum : Side → List Draft → ℤ
draft_sum side = sum_where (λ p. p.side == side) (λ p. p.amount)

abbrev is_nil : List Draft → Bool
is_nil [] = true
is_nil (p ∷ ps) = false

abbrev pub posting : ℕ → Draft → Posting
posting journal p = record {
  journal_id = journal;
  ledger_account_id = p.ledger_account_id;
  side = p.side;
  amount = p.amount;
  currency = p.currency;
}

-- One `INSERT INTO ledger_postings`, with CHECK (amount > 0).
unfoldable pub insert_posting : ℕ → Draft → Exec Db (Unit {0})
insert_posting journal p = do
  raise_if (leb_ℤ p.amount (pos 0)) (integrity_error "ledger_postings_amount_check")
  update (λ db. record db { ledger_postings = db.ledger_postings ++ posting journal p ∷ [] })

unfoldable pub insert_postings : ℕ → List Draft → Exec Db (Unit {0})
insert_postings journal [] = pure tt
insert_postings journal (p ∷ ps) = insert_posting journal p >> insert_postings journal ps

unfoldable pub insert_journal : Journal → List Draft → Exec Db ℕ
insert_journal j postings = do
  id ← fresh_id
  update (λ db. record db { ledger_journals = append_row id j db.ledger_journals })
  insert_postings id postings
  pure id

unfoldable pub post_new : Option (ℕ × Journal) → Journal → List Draft → Exec Db ℕ
post_new (some (id, existing)) j postings = pure id
post_new none j postings = insert_journal j postings

-- The first two checks of `post_journal`.
abbrev pub is_unbalanced : List Draft → Bool
is_unbalanced ps =
    is_nil ps
    || leb_ℤ (draft_sum debit ps) (pos 0)
    || leb_ℤ (draft_sum credit ps) (pos 0)
    || not (eq_ℤ (draft_sum debit ps) (draft_sum credit ps))

-- The journal's fields carry its currency, its reference, its key and its correlation id.
unfoldable pub post_journal : Journal → List Draft → Exec Db ℕ
post_journal j postings = do
  raise_if (is_unbalanced postings) (value_error "ledger journal must be balanced")
  raise_if (any (λ p. not (p.currency == j.currency)) postings)
      (value_error "all postings must use the journal currency")
  existing ← gets (λ db. find_row (λ r. r.idempotency_key == j.idempotency_key) db.ledger_journals)
  post_new existing j postings
