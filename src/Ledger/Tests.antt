-- ===== src/Ledger/Tests.antt =====
-- Runs and instances for the in-memory ledger.
use agent_pay.Prelude.{
  ◌≡◌, ◌≢◌, ◌↔◌, refl, pos, ◌+ℤ◌, Text, codes, [], ◌∷◌, lookup, some, ok, insert, list_eq, List_eq,
  ℕ_eq,
}
use agent_pay.Ledger.{
  Posting, Journal, Direction, debit, credit, debits, credits, validate, InMemoryLedger, put, post,
}
use agent_pay.Ledger.Balance.{IsBalanced, IsSound, validate_iff, post-IsSound}

abbrev posting : Text → Direction → Posting
posting account direction = record {
  account_id = account;
  direction = direction;
  amount = pos 5;
  currency = codes "USD";
}

abbrev lunch : Journal
lunch = record {
  journal_id = codes "j";
  postings = posting (codes "a") debit ∷ posting (codes "b") credit ∷ [];
}

abbrev reversed : Journal
reversed = record {
  journal_id = codes "j";
  postings = posting (codes "a") credit ∷ posting (codes "b") debit ∷ [];
}

abbrev books : InMemoryLedger
books = (codes "j", lunch) ∷ []

abbrev no_books : InMemoryLedger
no_books = []

lunch_posted : post lunch no_books ≡ ok books
unfolding post put validate debits credits ◌+ℤ◌ lookup insert list_eq
lunch_posted = refl

empty-IsSound : IsSound no_books
unfolding lookup
empty-IsSound = record { at_id = λ i j h. cc }

validate_iff_example : (validate lunch ≡ ok tt) ↔ IsBalanced lunch.postings
validate_iff_example = validate_iff lunch

post-IsSound_example :
    IsSound books
    × (lookup (codes "j") books ≡ some lunch)
    × ((i : Text) (k : Journal) → lookup i no_books ≡ some k → lookup i books ≡ some k)
post-IsSound_example = post-IsSound lunch no_books books empty-IsSound lunch_posted

lunch_found : lookup (codes "j") books ≡ some lunch
unfolding lookup list_eq
lunch_found = refl

lunch-ne-reversed : lunch ≢ reversed
lunch-ne-reversed e = cc
