-- ===== src/Intact.antt =====
-- What every method of the program keeps true of the database: the books balance, and the budgets
-- agree with their reservations.
pub mod Sessions
use agent_pay.Prelude.{
  ℕ, ℤ, Option, none, some, Text, Result, ok, err, ◌≡◌, refl, lookup, inl, inr, List, [], ◌∷◌,
}
use agent_pay.Prelude.Exec.{Exec, update}
use agent_pay.Prelude.Exec.Keeps.{Keeps, Keeps-of_state, keeps_rules, OnReturn, update-Keeps}
use agent_pay.BudgetRepository.{
  update_budget, insert_reservation, reserve_in, reserve, consume, release,
}
use agent_pay.BudgetRepository.Operations.{Accounted, consume-Accounted, release-Accounted}
use agent_pay.BudgetRepository.Reserve.{reserve-Accounted}
use agent_pay.PaymentRepository.{update_status, claim_operation, create_provider_operation}
use agent_pay.Journals.{
  Draft, insert_posting, insert_postings, insert_journal, post_new, post_journal,
}
use agent_pay.Journals.Trial.{
  IsBalanced, post_journal-IsBalanced, fresh_id-IsBalanced, update-IsBalanced,
}
use agent_pay.Store.{
  Db, Journal, ProviderOperation, PaymentRequest, OperationType, Status, Budget, Reservation, Key,
  fresh_id,
}

pub record Intact (db : Db) : Type 0 where
  pub books : IsBalanced db
  pub budgets : Accounted db

both : {A : Type 0} (m : Exec Db A) → Keeps IsBalanced m → Keeps Accounted m → Keeps Intact m
both {A} m h k = record { at = λ db i. pair (m db) (h.at db i.books) (k.at db i.budgets) }
  where
    pair : (r : Result A × Db) → OnReturn IsBalanced r → OnReturn Accounted r → OnReturn Intact r
    pair (ok a, s) p q = record { books = p; budgets = q }
    pair (err e, s) p q = tt

-- A statement that writes no posting, no budget and no reservation.
pub update-Intact :
    (f : Db → Db)
    → ((db : Db) → (f db).ledger_postings ≡ db.ledger_postings)
    → ((db : Db) → (f db).budgets ≡ db.budgets)
    → ((db : Db) → (f db).budget_reservations ≡ db.budget_reservations)
    → Keeps Intact (update f)
update-Intact f p b r = update-Keeps f (λ db h. record {
  books = record { at_journal = λ j. rw p (h.books.at_journal j) };
  budgets = rw (b, r) h.budgets;
})

update-Accounted :
    (f : Db → Db)
    → ((db : Db) → (f db).budgets ≡ db.budgets)
    → ((db : Db) → (f db).budget_reservations ≡ db.budget_reservations)
    → Keeps Accounted (update f)
update-Accounted f b r = update-Keeps f (λ db h. rw (b, r) h)

fresh_id-Accounted : Keeps Accounted fresh_id
unfolding fresh_id
fresh_id-Accounted = record { at = λ db h. h }

pub fresh_id-Intact : Keeps Intact fresh_id
fresh_id-Intact = both fresh_id fresh_id-IsBalanced fresh_id-Accounted

insert_posting-Accounted : (id : ℕ) (p : Draft) → Keeps Accounted (insert_posting id p)
unfolding insert_posting
insert_posting-Accounted id p = search (keeps_rules, update-Accounted) depth 9

insert_postings-Accounted : (id : ℕ) (ps : List Draft) → Keeps Accounted (insert_postings id ps)
unfolding insert_postings
insert_postings-Accounted id [] = search keeps_rules
insert_postings-Accounted id (p ∷ ps) =
    search (keeps_rules, insert_posting-Accounted id p, insert_postings-Accounted id ps) depth 9

post_new-Accounted :
    (o : Option (ℕ × Journal)) (j : Journal) (ps : List Draft) → Keeps Accounted (post_new o j ps)
unfolding post_new insert_journal
post_new-Accounted (some (id, k)) j ps = search keeps_rules
post_new-Accounted none j ps =
    search (keeps_rules, fresh_id-Accounted, update-Accounted, insert_postings-Accounted) depth 9

post_journal-Accounted : (j : Journal) (ps : List Draft) → Keeps Accounted (post_journal j ps)
unfolding post_journal
post_journal-Accounted j ps = search (keeps_rules, post_new-Accounted) depth 9

pub post_journal-Intact : (j : Journal) (ps : List Draft) → Keeps Intact (post_journal j ps)
post_journal-Intact j ps =
    both (post_journal j ps) (post_journal-IsBalanced j ps) (post_journal-Accounted j ps)

update_budget-IsBalanced : (b : ℕ) (f : Budget → Budget) → Keeps IsBalanced (update_budget b f)
unfolding update_budget
update_budget-IsBalanced b f = search (keeps_rules, update-IsBalanced) depth 9

insert_reservation-IsBalanced :
    (b q : ℕ) (r : Reservation) → Keeps IsBalanced (insert_reservation b q r)
unfolding insert_reservation
insert_reservation-IsBalanced b q r =
    search (keeps_rules, update-IsBalanced, fresh_id-IsBalanced) depth 12

reserve_in-IsBalanced :
    (o : Option Budget) (b q : ℕ) (a : ℤ) → Keeps IsBalanced (reserve_in o b q a)
unfolding reserve_in
reserve_in-IsBalanced none b q a = search keeps_rules
reserve_in-IsBalanced (some row) b q a =
    search (keeps_rules, insert_reservation-IsBalanced, update_budget-IsBalanced) depth 12

pub reserve-Intact : (b q : ℕ) (a : ℤ) → Keeps Intact (reserve b q a)
unfolding reserve
reserve-Intact b q a =
    both (reserve b q a) (search (keeps_rules, reserve_in-IsBalanced) depth 9)
      (Keeps-of_state (reserve b q a) (reserve-Accounted b q a))

consume-IsBalanced : (r : ℕ) → Keeps IsBalanced (consume r)
unfolding consume
consume-IsBalanced r = search (keeps_rules, update-IsBalanced, update_budget-IsBalanced) depth 12

pub consume-Intact : (r : ℕ) → Keeps Intact (consume r)
consume-Intact r =
    both (consume r) (consume-IsBalanced r) (Keeps-of_state (consume r) (consume-Accounted r))

release-IsBalanced : (r : ℕ) → Keeps IsBalanced (release r)
unfolding release
release-IsBalanced r = search (keeps_rules, update-IsBalanced, update_budget-IsBalanced) depth 12

pub release-Intact : (r : ℕ) → Keeps Intact (release r)
release-Intact r =
    both (release r) (release-IsBalanced r) (Keeps-of_state (release r) (release-Accounted r))

pub update_status-Intact :
    (p : ℕ) (s : Status) (r : Option Text) → Keeps Intact (update_status p s r)
unfolding update_status
update_status-Intact p s r = search update-Intact depth 5

claim_operation-Intact :
    (o : Option (ℕ × ProviderOperation)) (p : ℕ) (t : OperationType) (k : Key)
    → Keeps Intact (claim_operation o p t k)
unfolding claim_operation
claim_operation-Intact none p t k = search (keeps_rules, fresh_id-Intact, update-Intact) depth 9
claim_operation-Intact (some (id, e)) p t k = search keeps_rules depth 9

pub create_provider_operation-Intact :
    (p : ℕ) (t : OperationType) (k : Key) → Keeps Intact (create_provider_operation p t k)
unfolding create_provider_operation
create_provider_operation-Intact p t k =
    search (keeps_rules, claim_operation-Intact, update-Intact) depth 9

pub ruleset intact_rules = (
  fresh_id-Intact, post_journal-Intact, reserve-Intact, consume-Intact, release-Intact,
  update_status-Intact, create_provider_operation-Intact, update-Intact,
)
