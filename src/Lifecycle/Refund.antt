-- ===== src/Lifecycle/Refund.antt =====
-- A refund's row from its insertion to its settlement.
use mathlib.Core.Path.{subst}
use agent_pay.Prelude.{
  ℕ, ℤ, pos, ◌-ℤ◌, ◌≤ℤ◌, leb_ℤ, Text, none, some, lookup, lookup-appended, find_row-fits,
  find_row-lookup, AllRows-lookup, List, Bool-cases, Option-cases, ℕ_eq, inl, inr, ◌≡◌, refl,
}
use agent_pay.Prelude.Exec.{update, ◌>>=◌, ◌>>◌, raise_if, pure, gets}
use agent_pay.Prelude.Exec.Keeps.{Keeps, keeps_rules, Ensures, OnReturn, bind-Ensures}
use agent_pay.Journals.{Draft, post_journal}
use agent_pay.Lifecycle.{
  Accounts, insert_transaction, create_transaction, new_transaction, transaction_at,
  set_transaction, settle_refund,
}
use agent_pay.Lifecycle.Covered.{Covered, post_journal-Covered, update_status-Covered}
use agent_pay.Lifecycle.Posted.{
  Fits, FitsKey, posted, append_row-IsCovered, unposted-IsHarmless, posted-unposted, type_facts,
  failed-IsCovered, posted-IsCovered,
}
use agent_pay.PaymentRepository.{update_status}
use agent_pay.Provider.{
  ProviderOutcome, ProviderOutcome.succeeded, ProviderOutcome.failed, ProviderOutcome.unknown,
}
use agent_pay.Store.{
  Db, Journal, Transaction, TransactionStatus, TransactionStatus_eq, OperationType, Status, Key,
  Key_eq, KeyKind, detailed, Spelled, fresh_id,
}

-- A refund that is on its way: its pending row, and room for its amount.
pub record Pending (id payment : ℕ) (amount : ℤ) (db : Db) : Type 0 where
  pub covered : Covered db
  pub row : Transaction
  pub found : lookup id db.transactions ≡ some row
  pub is_payment : row.payment_id ≡ payment
  pub is_refund : row.operation_type ≡ OperationType.refund
  pub is_amount : row.amount ≡ amount
  pub is_pending : row.status ≡ TransactionStatus.pending
  pub room :
      amount
      ≤ℤ posted payment OperationType.capture db.transactions
        -ℤ posted payment OperationType.refund db.transactions

ended-Covered :
    (p : ℕ) (status returned : Status)
    → Keeps Covered (update_status p status none >> pure returned)
ended-Covered p status returned = search (keeps_rules, update_status-Covered) depth 9

booked-Covered :
    (j : Journal) (ps : List Draft) (p : ℕ) (status returned : Status)
    → Keeps Covered (post_journal j ps >>= λ id. update_status p status none >> pure returned)
booked-Covered j ps p status returned =
    search (keeps_rules, post_journal-Covered, update_status-Covered) depth 9

pub settle_refund-Covered :
    (o : ProviderOutcome) (p id : ℕ) (a : ℤ) (c : Text) (k : Key) (r : ℤ) (to : Accounts) (db : Db)
    → Pending id p a db
    → OnReturn Covered (settle_refund o p id a c k r to db)
unfolding settle_refund set_transaction update
settle_refund-Covered unknown p id a c k r to db h =
    (ended-Covered p Status.unknown_external_outcome Status.unknown_external_outcome).at db
      h.covered
settle_refund-Covered failed p id a c k r to db h =
    bind-Ensures (λ u t. Covered t) _ _ _ db
      (failed-IsCovered id h.row (λ t. t.posted_at) db.next_id db.transactions h.covered h.found
        h.is_refund h.is_pending)
      (λ u t q. (ended-Covered p Status.refund_failed Status.refund_failed).at t q)
settle_refund-Covered succeeded p id a c k r to db h =
    bind-Ensures (λ u t. Covered t) _ _ _ db
      (posted-IsCovered id h.row (λ t. some db.now) db.next_id db.transactions h.covered h.found
        h.is_refund h.is_pending (rw (h.is_amount, h.is_payment) h.room))
      (λ u t q. (booked-Covered _ _ p _ Status.refunded).at t q)

-- The row that `refund` finds or inserts under its key.
module _ (p : ℕ) (a : Spelled) (c : Text) (db : Db) (h : Covered db)
    (room : a.value
      ≤ℤ posted p OperationType.capture db.transactions
        -ℤ posted p OperationType.refund db.transactions) where
  abbrev pub refund_key : Key
  refund_key = detailed KeyKind.tx_refund p a c

  abbrev refund_row : Transaction
  refund_row =
      new_transaction p OperationType.refund TransactionStatus.pending a.value c refund_key db.now

  found-Pending :
      (id : ℕ) (e : Transaction)
      → transaction_at refund_key db ≡ some (id, e)
      → e.status ≡ TransactionStatus.pending
      → Pending id p a.value db
  found-Pending id e at pending =
      let there = find_row-lookup _ id e db.transactions h.distinct at in
      let same =
        (Key_eq.beq_iff e.idempotency_key refund_key).0 (find_row-fits _ id e db.transactions at) in
      let fit =
        subst (λ k. FitsKey k e) same (AllRows-lookup Fits id db.transactions h.fits there) in
      record {
        covered = h;
        row = e;
        found = there;
        is_payment = fit.0;
        is_refund = fit.1;
        is_amount = fit.2;
        is_pending = pending;
        room = room;
      }

  inserted-Pending :
      Ensures
        (λ id t. Pending id p a.value t)
        (insert_transaction none p OperationType.refund TransactionStatus.pending a.value c
          refund_key db)
  unfolding insert_transaction fresh_id ◌>>=◌ update raise_if
  inserted-Pending = elim (Bool-cases (leb_ℤ a.value (pos 0))) [
    | inl bad ↦ rw bad tt
    | inr good ↦ rw good (record {
      covered =
          append_row-IsCovered db.next_id refund_row db.transactions (refl, refl, refl)
            (unposted-IsHarmless refund_row (type_facts.6)) h;
      row = refund_row;
      found = lookup-appended db.next_id refund_row db.transactions h.below;
      is_payment = refl;
      is_refund = refl;
      is_amount = refl;
      is_pending = refl;
      room =
          rw
            (
              posted-unposted p db.next_id OperationType.capture refund_row db.transactions
                  (type_facts.6),
              posted-unposted p db.next_id OperationType.refund refund_row db.transactions
                  (type_facts.6),
            )
            room;
    })
  ]

  pub create_transaction-Pending :
      ((id : ℕ) (e : Transaction)
        → transaction_at refund_key db ≡ some (id, e)
        → e.status ≡ TransactionStatus.pending)
      → Ensures
          (λ id t. Pending id p a.value t)
          (create_transaction p OperationType.refund TransactionStatus.pending a.value c refund_key
            db)
  unfolding create_transaction insert_transaction gets ◌>>=◌
  create_transaction-Pending pending = elim (Option-cases (transaction_at refund_key db)) [
    | inl new ↦ rw new inserted-Pending
    | inr ((id, e), at) ↦ rw at (found-Pending id e at (pending id e at))
  ]
