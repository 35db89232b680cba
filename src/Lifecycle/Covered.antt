-- ===== src/Lifecycle/Covered.antt =====
-- The steps of the lifecycle and the transactions table.
use agent_pay.Prelude.{
  ℕ, ℤ, pos, ◌<ℤ◌, leb_ℤ, Text, Option, none, some, List, [], ◌∷◌, Bool-cases, inl, inr, ◌≡◌, arith,
}
use agent_pay.Prelude.Exec.{update, ◌>>=◌, raise_if}
use agent_pay.Prelude.Exec.Keeps.{Keeps, keeps_rules, update-Keeps, bind-Keeps}
use agent_pay.Journals.{
  Draft, insert_posting, insert_postings, insert_journal, post_new, post_journal,
}
use agent_pay.PaymentRepository.{update_status, claim_operation, create_provider_operation}
use agent_pay.Lifecycle.{
  insert_transaction, create_transaction, new_transaction, settle_capture, settle_void,
}
use agent_pay.Lifecycle.Posted.{
  IsCovered, IsHarmless, Fits, append_row-IsCovered, suc-IsCovered, unposted-IsHarmless,
  posted-IsHarmless, type_facts,
}
use agent_pay.Provider.{
  ProviderOutcome, ProviderOutcome.succeeded, ProviderOutcome.failed, ProviderOutcome.unknown,
}
use agent_pay.Lifecycle.{Accounts}
use agent_pay.Store.{
  Db, Transaction, TransactionStatus, TransactionStatus_eq, OperationType, OperationType_eq,
  ProviderOperation, Journal, Status, Key, KeyKind, plain, fresh_id,
}

-- Of no payment more is refunded than is captured.
abbrev pub Covered : Db → Type 0
Covered db = IsCovered db.next_id db.transactions

-- A statement that writes no transaction.
pub update-Covered :
    (f : Db → Db)
    → ((db : Db) → (f db).transactions ≡ db.transactions)
    → ((db : Db) → (f db).next_id ≡ db.next_id)
    → Keeps Covered (update f)
update-Covered f same next = update-Keeps f (λ db h. rw (same, next) h)

fresh_id-Covered : Keeps Covered fresh_id
unfolding fresh_id
fresh_id-Covered = record { at = λ db h. suc-IsCovered db.next_id db.transactions h }

insert_posting-Covered : (id : ℕ) (p : Draft) → Keeps Covered (insert_posting id p)
unfolding insert_posting
insert_posting-Covered id p = search (keeps_rules, update-Covered) depth 9

insert_postings-Covered : (id : ℕ) (ps : List Draft) → Keeps Covered (insert_postings id ps)
unfolding insert_postings
insert_postings-Covered id [] = search keeps_rules
insert_postings-Covered id (p ∷ ps) =
    bind-Keeps _ _ (insert_posting-Covered id p) (λ u. insert_postings-Covered id ps)

post_new-Covered :
    (o : Option (ℕ × Journal)) (j : Journal) (ps : List Draft) → Keeps Covered (post_new o j ps)
unfolding post_new insert_journal
post_new-Covered none j ps =
    search (keeps_rules, fresh_id-Covered, update-Covered, insert_postings-Covered) depth 9
post_new-Covered (some (id, k)) j ps = search keeps_rules

pub post_journal-Covered : (j : Journal) (ps : List Draft) → Keeps Covered (post_journal j ps)
unfolding post_journal
post_journal-Covered j ps = search (keeps_rules, post_new-Covered) depth 9

pub update_status-Covered :
    (p : ℕ) (s : Status) (r : Option Text) → Keeps Covered (update_status p s r)
unfolding update_status
update_status-Covered p s r = search update-Covered depth 5

claim_operation-Covered :
    (o : Option (ℕ × ProviderOperation)) (p : ℕ) (t : OperationType) (k : Key)
    → Keeps Covered (claim_operation o p t k)
unfolding claim_operation
claim_operation-Covered none p t k = search (keeps_rules, fresh_id-Covered, update-Covered) depth 9
claim_operation-Covered (some (id, e)) p t k = search keeps_rules depth 9

pub create_provider_operation-Covered :
    (p : ℕ) (t : OperationType) (k : Key) → Keeps Covered (create_provider_operation p t k)
unfolding create_provider_operation
create_provider_operation-Covered p t k =
    search (keeps_rules, claim_operation-Covered, update-Covered) depth 9

pub ruleset covered_rules =
    (update-Covered, post_journal-Covered, update_status-Covered, create_provider_operation-Covered)

module _ (p : ℕ) (type : OperationType) (status : TransactionStatus) (a : ℤ) (c : Text) (k : Key)
    (fits : (now : ℕ) → Fits (new_transaction p type status a c k now))
    (harmless : (now : ℕ) → pos 0 <ℤ a → IsHarmless (new_transaction p type status a c k now)) where
  insert_transaction-Covered :
      (o : Option (ℕ × Transaction)) → Keeps Covered (insert_transaction o p type status a c k)
  unfolding insert_transaction fresh_id ◌>>=◌ update raise_if
  insert_transaction-Covered (some (id, e)) = record { at = λ db h. h }
  insert_transaction-Covered none = record {
    at = λ db h. elim (Bool-cases (leb_ℤ a (pos 0))) [
      | inl bad ↦ rw bad tt
      | inr good ↦ rw good (
          append_row-IsCovered db.next_id (new_transaction p type status a c k db.now)
            db.transactions (fits db.now) (harmless db.now (ground arith)) h)
    ];
  }

  create_transaction-Covered : Keeps Covered (create_transaction p type status a c k)
  unfolding create_transaction
  create_transaction-Covered = search (keeps_rules, insert_transaction-Covered) depth 9

-- A transaction that is not posted.
pub unposted-Covered :
    (p : ℕ) (type : OperationType) (a : ℤ) (c : Text) (k : KeyKind) (q : ℕ)
    → Keeps Covered (create_transaction p type TransactionStatus.failed a c (plain k q))
unposted-Covered p type a c k q =
    create_transaction-Covered p type TransactionStatus.failed a c (plain k q) (λ now. tt)
      (λ now positive.
        unposted-IsHarmless (new_transaction p type TransactionStatus.failed a c (plain k q) now)
          (type_facts.5))

pub capture-Covered :
    (p : ℕ) (a : ℤ) (c : Text) (k : KeyKind) (q : ℕ)
    → Keeps Covered
        (create_transaction p OperationType.capture TransactionStatus.posted a c (plain k q))
capture-Covered p a c k q =
    create_transaction-Covered p OperationType.capture TransactionStatus.posted a c (plain k q)
      (λ now. tt)
      (λ now positive.
        posted-IsHarmless
          (new_transaction p OperationType.capture TransactionStatus.posted a c (plain k q) now)
          positive (type_facts.0))

pub void-Covered :
    (p : ℕ) (a : ℤ) (c : Text) (k : KeyKind) (q : ℕ)
    → Keeps Covered
        (create_transaction p OperationType.void TransactionStatus.posted a c (plain k q))
void-Covered p a c k q =
    create_transaction-Covered p OperationType.void TransactionStatus.posted a c (plain k q)
      (λ now. tt)
      (λ now positive.
        posted-IsHarmless
          (new_transaction p OperationType.void TransactionStatus.posted a c (plain k q) now)
          positive (type_facts.2))

pub settle_capture-Covered :
    (o : ProviderOutcome) (p : ℕ) (a : ℤ) (c : Text) (to : Accounts)
    → Keeps Covered (settle_capture o p a c to)
unfolding settle_capture
settle_capture-Covered succeeded p a c to =
    search (keeps_rules, covered_rules, capture-Covered) depth 12
settle_capture-Covered failed p a c to =
    search (keeps_rules, covered_rules, unposted-Covered) depth 12
settle_capture-Covered unknown p a c to = search (keeps_rules, covered_rules) depth 12

pub settle_void-Covered :
    (o : ProviderOutcome) (p : ℕ) (a : ℤ) (c : Text) → Keeps Covered (settle_void o p a c)
unfolding settle_void
settle_void-Covered succeeded p a c = search (keeps_rules, covered_rules, void-Covered) depth 12
settle_void-Covered failed p a c = search (keeps_rules, covered_rules, unposted-Covered) depth 12
settle_void-Covered unknown p a c = search (keeps_rules, covered_rules) depth 12
