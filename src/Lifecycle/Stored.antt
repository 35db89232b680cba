-- ===== src/Lifecycle/Stored.antt =====
-- The payment's row under the steps of capture and void.
use agent_pay.Prelude.{
  ℕ, ℤ, Text, Option, none, some, List, [], ◌∷◌, lookup, modify, lookup-modify, nat_eq_refl, ◌≡◌,
  refl, ◌∙◌, ℕ_eq,
}
use agent_pay.Prelude.Exec.{update}
use agent_pay.Prelude.Exec.Keeps.{Keeps, keeps_rules, update-Keeps, bind-Keeps, Ensures}
use agent_pay.Journals.{
  Draft, insert_posting, insert_postings, insert_journal, post_new, post_journal,
}
use agent_pay.Lifecycle.{insert_transaction, create_transaction}
use agent_pay.PaymentRepository.{
  update_status, set_status, claim_operation, create_provider_operation,
}
use agent_pay.Store.{
  Db, Payment, ProviderOperation, Transaction, TransactionStatus, OperationType, Status, Key,
  Journal, fresh_id,
}

-- The payment is there with an amount, a currency and a status.
pub record Stands (payment : ℕ) (amount : ℤ) (currency : Text) (status : Status) (db : Db)
    : Type 0 where
  pub row : Payment
  pub found : lookup payment db.payments ≡ some row
  pub same_amount : row.amount ≡ amount
  pub same_currency : row.currency ≡ currency
  pub same_status : row.status ≡ status

module _ {payment : ℕ} {amount : ℤ} {currency : Text} where
  -- An update of the payment's row.
  modified :
      (f : Payment → Payment) (old new : Status) (db : Db) (t : Db)
      → ((p : Payment) → (f p).amount ≡ p.amount)
      → ((p : Payment) → (f p).currency ≡ p.currency)
      → ((p : Payment) → p.status ≡ old → (f p).status ≡ new)
      → t.payments ≡ modify payment f db.payments
      → Stands payment amount currency old db
      → Stands payment amount currency new t
  modified f old new db t a c s same h = record {
    row = f h.row;
    found = rw same (rw lookup-modify (rw (nat_eq_refl, h.found)));
    same_amount = a h.row ∙ h.same_amount;
    same_currency = c h.row ∙ h.same_currency;
    same_status = s h.row h.same_status;
  }

  pub update_status-Stands :
      (old new : Status) (reference : Option Text) (db : Db)
      → Stands payment amount currency old db
      → Ensures
          (λ u t. Stands payment amount currency new t)
          (update_status payment new reference db)
  unfolding update_status update
  update_status-Stands old new reference db h =
      modified (set_status new reference db.now) old new db _ (λ p. refl) (λ p. refl) (λ p e. refl)
        refl h

  module _ {status : Status} where
    update-Stands :
        (f : Db → Db)
        → ((db : Db) → (f db).payments ≡ db.payments)
        → Keeps (Stands payment amount currency status) (update f)
    update-Stands f same = update-Keeps f (λ db h. record {
      row = h.row;
      found = rw same h.found;
      same_amount = h.same_amount;
      same_currency = h.same_currency;
      same_status = h.same_status;
    })

    fresh_id-Stands : Keeps (Stands payment amount currency status) fresh_id
    unfolding fresh_id
    fresh_id-Stands = record {
      at = λ db h. record {
        row = h.row;
        found = h.found;
        same_amount = h.same_amount;
        same_currency = h.same_currency;
        same_status = h.same_status;
      };
    }

    insert_posting-Stands :
        (id : ℕ) (p : Draft) → Keeps (Stands payment amount currency status) (insert_posting id p)
    unfolding insert_posting
    insert_posting-Stands id p = search (keeps_rules, update-Stands) depth 9

    insert_postings-Stands :
        (id : ℕ) (ps : List Draft)
        → Keeps (Stands payment amount currency status) (insert_postings id ps)
    unfolding insert_postings
    insert_postings-Stands id [] = search keeps_rules
    insert_postings-Stands id (p ∷ ps) =
        bind-Keeps _ _ (insert_posting-Stands id p) (λ u. insert_postings-Stands id ps)

    post_new-Stands :
        (o : Option (ℕ × Journal)) (j : Journal) (ps : List Draft)
        → Keeps (Stands payment amount currency status) (post_new o j ps)
    unfolding post_new insert_journal
    post_new-Stands none j ps =
        search (keeps_rules, fresh_id-Stands, update-Stands, insert_postings-Stands) depth 9
    post_new-Stands (some (id, k)) j ps = search keeps_rules

    pub post_journal-Stands :
        (j : Journal) (ps : List Draft)
        → Keeps (Stands payment amount currency status) (post_journal j ps)
    unfolding post_journal
    post_journal-Stands j ps = search (keeps_rules, post_new-Stands) depth 9

    insert_transaction-Stands :
        (o : Option (ℕ × Transaction)) (p : ℕ) (t : OperationType) (s : TransactionStatus) (a : ℤ)
        (c : Text) (k : Key)
        → Keeps (Stands payment amount currency status) (insert_transaction o p t s a c k)
    unfolding insert_transaction
    insert_transaction-Stands none p t s a c k =
        search (keeps_rules, fresh_id-Stands, update-Stands) depth 9
    insert_transaction-Stands (some (id, e)) p t s a c k = search keeps_rules

    pub create_transaction-Stands :
        (p : ℕ) (t : OperationType) (s : TransactionStatus) (a : ℤ) (c : Text) (k : Key)
        → Keeps (Stands payment amount currency status) (create_transaction p t s a c k)
    unfolding create_transaction
    create_transaction-Stands p t s a c k = search (keeps_rules, insert_transaction-Stands) depth 9

    claim_operation-Stands :
        (o : Option (ℕ × ProviderOperation)) (p : ℕ) (t : OperationType) (k : Key)
        → Keeps (Stands payment amount currency status) (claim_operation o p t k)
    unfolding claim_operation
    claim_operation-Stands none p t k = search (keeps_rules, fresh_id-Stands, update-Stands) depth 9
    claim_operation-Stands (some (id, e)) p t k = search keeps_rules depth 9

    point-Stands :
        (id : ℕ)
        → Keeps (Stands payment amount currency status) (
            update (λ db. record db {
              payments =
                  modify payment
                    (λ p. record p { provider_operation_id = some id; updated_at = db.now })
                    db.payments;
            }))
    unfolding update
    point-Stands id = record {
      at = λ db h.
          modified (λ p. record p { provider_operation_id = some id; updated_at = db.now }) status
            status db _ (λ p. refl) (λ p. refl) (λ p e. e) refl h;
    }

    pub create_provider_operation-Stands :
        (t : OperationType) (k : Key)
        → Keeps (Stands payment amount currency status) (create_provider_operation payment t k)
    unfolding create_provider_operation
    create_provider_operation-Stands t k =
        search (keeps_rules, claim_operation-Stands, point-Stands) depth 9
