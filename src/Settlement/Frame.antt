-- ===== src/Settlement/Frame.antt =====
-- What a settlement report leaves alone, and what it records.
use agent_pay.Prelude.{ℕ, List_eq, Option, none, some, Table, List, ◌≡◌, refl, ◌∙◌, ℕ_eq}
use agent_pay.Prelude.Exec.{update}
use agent_pay.Prelude.Exec.Keeps.{Keeps, keeps_rules, update-Keeps, Ensures, weaken-Ensures}
use agent_pay.Intact.{Intact, intact_rules}
use agent_pay.Settlement.{
  Report, insert_settlement, record_reconciliation, set_settlement, reconcile, after_insert,
  ingest_report,
}
use agent_pay.Store.{
  Db, Payment, PaymentRequest, Budget, Reservation, ProviderOperation, Transaction, Journal,
  Posting, Settlement, SettlementStatus, Reconciliation, fresh_id,
}

-- The tables of payments, budgets and books.
abbrev pub Truth : Type 0
Truth =
    Table Payment
    × Table PaymentRequest
    × Table Budget
    × Table Reservation
    × Table ProviderOperation
    × Table Transaction
    × Table Journal
    × List Posting

abbrev pub truth : Db → Truth
truth db = (
  db.payments, db.payment_requests, db.budgets, db.budget_reservations, db.provider_operations,
  db.transactions, db.ledger_journals, db.ledger_postings,
)

module _ (v : Truth) where
  record HasTruth (db : Db) : Type 0 where
    pub same : truth db ≡ v

  update-HasTruth :
      (f : Db → Db) → ((db : Db) → truth (f db) ≡ truth db) → Keeps HasTruth (update f)
  update-HasTruth f same = update-Keeps f (λ db h. record { same = same db ∙ h.same })

  fresh_id-HasTruth : Keeps HasTruth fresh_id
  unfolding fresh_id
  fresh_id-HasTruth = record { at = λ db h. record { same = h.same } }

  record_reconciliation-HasTruth : (r : Reconciliation) → Keeps HasTruth (record_reconciliation r)
  unfolding record_reconciliation
  record_reconciliation-HasTruth r =
      search (keeps_rules, fresh_id-HasTruth, update-HasTruth) depth 9

  set_settlement-HasTruth : (id : ℕ) (s : SettlementStatus) → Keeps HasTruth (set_settlement id s)
  unfolding set_settlement
  set_settlement-HasTruth id s = search update-HasTruth depth 5

  insert_settlement-HasTruth :
      (o : Option (ℕ × Settlement)) (r : Report) → Keeps HasTruth (insert_settlement o r)
  unfolding insert_settlement
  insert_settlement-HasTruth none r =
      search (keeps_rules, fresh_id-HasTruth, update-HasTruth) depth 9
  insert_settlement-HasTruth (some e) r = search keeps_rules

  reconcile-HasTruth :
      (o : Option (ℕ × ProviderOperation × Payment)) (id : ℕ) (r : Report)
      → Keeps HasTruth (reconcile o id r)
  unfolding reconcile
  reconcile-HasTruth none id r =
      search (keeps_rules, record_reconciliation-HasTruth, set_settlement-HasTruth) depth 9
  reconcile-HasTruth (some (k, o, p)) id r =
      search (keeps_rules, record_reconciliation-HasTruth, set_settlement-HasTruth) depth 9

  after_insert-HasTruth : (o : Option ℕ) (r : Report) → Keeps HasTruth (after_insert o r)
  unfolding after_insert
  after_insert-HasTruth none r = search keeps_rules
  after_insert-HasTruth (some id) r = search (keeps_rules, reconcile-HasTruth) depth 9

  ingest_report-HasTruth : (r : Report) → Keeps HasTruth (ingest_report r)
  unfolding ingest_report
  ingest_report-HasTruth r =
      search (keeps_rules, insert_settlement-HasTruth, after_insert-HasTruth) depth 12

-- A report that `ingest` accepts changes no payment, request, budget, reservation, provider
-- operation, transaction, journal or posting.
pub ingest_report-frame :
    (r : Report) (db : Db) → Ensures (λ c t. truth t ≡ truth db) (ingest_report r db)
ingest_report-frame r db =
    weaken-Ensures _ _ (ingest_report r db)
      ((ingest_report-HasTruth (truth db) r).at db (record { same = refl })) (λ c t h. h.same)

insert_settlement-Intact :
    (o : Option (ℕ × Settlement)) (r : Report) → Keeps Intact (insert_settlement o r)
unfolding insert_settlement
insert_settlement-Intact none r = search (keeps_rules, intact_rules) depth 9
insert_settlement-Intact (some e) r = search keeps_rules

reconcile-Intact :
    (o : Option (ℕ × ProviderOperation × Payment)) (id : ℕ) (r : Report)
    → Keeps Intact (reconcile o id r)
unfolding reconcile record_reconciliation set_settlement
reconcile-Intact none id r = search (keeps_rules, intact_rules) depth 12
reconcile-Intact (some (k, o, p)) id r = search (keeps_rules, intact_rules) depth 12

after_insert-Intact : (o : Option ℕ) (r : Report) → Keeps Intact (after_insert o r)
unfolding after_insert
after_insert-Intact none r = search keeps_rules
after_insert-Intact (some id) r = search (keeps_rules, reconcile-Intact) depth 9

pub ingest_report-Intact : (r : Report) → Keeps Intact (ingest_report r)
unfolding ingest_report
ingest_report-Intact r =
    search (keeps_rules, insert_settlement-Intact, after_insert-Intact) depth 12
