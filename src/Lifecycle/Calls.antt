-- ===== src/Lifecycle/Calls.antt =====
-- Captures, voids and refunds in any order: a refund never exceeds what is captured and not refunded
-- yet.
use agent_pay.Prelude.{
  ℕ, ℤ, ◌-ℤ◌, ◌≤ℤ◌, ltb_ℤ, Text, Option, none, some, Table, List, [], ◌∷◌, false, ◌≡◌, refl, sym,
  ◌∙◌, arith,
}
use agent_pay.Prelude.Exec.{update, pure}
use agent_pay.Prelude.Exec.Keeps.{
  Keeps, keeps_rules, update-Keeps, OnReturn, bind-Ensures, raise_if-Ensures, or_raise-Ensures,
}
use agent_pay.Lifecycle.{
  Accounts, transaction_at, refund_replay_status, replay, refund_new, refund_or_replay, refund,
  posted_sum, capture, capture_new, repeated, void, void_new,
}
use agent_pay.Lifecycle.Covered.{
  Covered, covered_rules, settle_capture-Covered, settle_void-Covered,
}
use agent_pay.Lifecycle.Keeping.{refund-keeps}
use agent_pay.Lifecycle.Posted.{posted, suc-IsCovered}
use agent_pay.Lifecycle.Refund.{Pending, settle_refund-Covered, create_transaction-Pending}
use agent_pay.PaymentRepository.{update_status, claim_operation, create_provider_operation}
use agent_pay.Provider.{PaymentProvider}
use agent_pay.Store.Returns.{on_db-Ensures, lift-Ensures, on_provider-Ensures, query-Ensures}
use agent_pay.Store.{
  Db, Transaction, TransactionStatus, TransactionStatus.pending, OperationType, ProviderOperation,
  Status, Key, KeyKind, detailed, Spelled, Session, KeepsDb, session_rules, unit_of_work,
  unit_of_work-keeps, fresh_id,
}

-- Nothing has been written to the transactions since they were `rows`.
record Ready (rows : Table Transaction) (db : Db) : Type 0 where
  same : db.transactions ≡ rows
  covered : Covered db

module _ {rows : Table Transaction} where
  update-Ready :
      (f : Db → Db)
      → ((db : Db) → (f db).transactions ≡ db.transactions)
      → ((db : Db) → (f db).next_id ≡ db.next_id)
      → Keeps (Ready rows) (update f)
  update-Ready f t n =
      update-Keeps f (λ db h. record { same = t db ∙ h.same; covered = rw (t, n) h.covered })

  update_status-Ready :
      (p : ℕ) (s : Status) (r : Option Text) → Keeps (Ready rows) (update_status p s r)
  unfolding update_status
  update_status-Ready p s r = search update-Ready depth 5

  fresh_id-Ready : Keeps (Ready rows) fresh_id
  unfolding fresh_id
  fresh_id-Ready = record {
    at = λ db h. record {
      same = h.same;
      covered = suc-IsCovered db.next_id db.transactions h.covered;
    };
  }

  claim_operation-Ready :
      (o : Option (ℕ × ProviderOperation)) (p : ℕ) (t : OperationType) (k : Key)
      → Keeps (Ready rows) (claim_operation o p t k)
  unfolding claim_operation
  claim_operation-Ready none p t k = search (keeps_rules, fresh_id-Ready, update-Ready) depth 9
  claim_operation-Ready (some (id, e)) p t k = search keeps_rules depth 9

  create_provider_operation-Ready :
      (p : ℕ) (t : OperationType) (k : Key) → Keeps (Ready rows) (create_provider_operation p t k)
  unfolding create_provider_operation
  create_provider_operation-Ready p t k =
      search (keeps_rules, claim_operation-Ready, update-Ready) depth 9

not_less : (r x : ℤ) → ltb_ℤ r x ≡ false → x ≤ℤ r
not_less r x h = ground arith

-- A refund that is not replayed is new or pending.
replay-pending :
    (o : Option (ℕ × Transaction)) (r : ℤ) (id : ℕ) (e : Transaction)
    → o ≡ some (id, e)
    → replay o r ≡ none
    → e.status ≡ pending
unfolding refund_replay_status
replay-pending none r id e at h = cc
replay-pending (some (i, w)) r id e at h = let s : w ≡ e = cc in rw s at (by_status w.status h)
  where
    by_status : (st : TransactionStatus) → refund_replay_status st r ≡ none → st ≡ pending
    by_status pending g = refl
    by_status TransactionStatus.posted g = cc
    by_status TransactionStatus.failed g = cc

module _ {P : Type 0} (provider : PaymentProvider P ℕ Key) where
  refund_new-Covered :
      (p : ℕ) (a : Spelled) (c : Text) (k : Key) (r : ℤ) (to : Accounts) (s : Session P)
      → Covered s.db
      → r
        ≡ posted p OperationType.capture s.db.transactions
          -ℤ posted p OperationType.refund s.db.transactions
      → ((id : ℕ) (e : Transaction)
          → transaction_at (detailed KeyKind.tx_refund p a c) s.db ≡ some (id, e)
          → e.status ≡ pending)
      → OnReturn (λ (t : Session P). Covered t.db) (refund_new provider p a c k r to s)
  unfolding refund_new
  refund_new-Covered p a c k r to s h left pends =
      raise_if-Ensures _ (ltb_ℤ r a.value) _ _ s (λ fits.
        bind-Ensures (λ u t. Ready s.db.transactions t.db) _ _ _ s
          (on_db-Ensures (λ u d. Ready s.db.transactions d) _ s
            ((update_status-Ready p Status.refund_processing none).at s.db
              (record { same = refl; covered = h })))
          (λ u t q.
            bind-Ensures (λ o w. Ready s.db.transactions w.db) _ _ _ t
              (on_db-Ensures (λ o d. Ready s.db.transactions d) _ t
                ((create_provider_operation-Ready p OperationType.refund k).at t.db q))
              (λ o w z.
                bind-Ensures (λ id x. Pending id p a.value x.db) _ _ _ w
                  (on_db-Ensures (λ id d. Pending id p a.value d) _ w
                    (create_transaction-Pending p a c w.db z.covered
                      (rw z.same (rw (sym left) (not_less r a.value fits)))
                      (λ id e at. pends id e (rw z.same at at))))
                  (λ id x y. lift-Ensures _ _ _ x (λ minor cents.
                    on_provider-Ensures (λ st d. Covered d) _ _ x
                      (λ out v same.
                        on_db-Ensures (λ st d. Covered d) _ v
                          (settle_refund-Covered out p id a.value c k r to v.db (rw same y))))))))

  refund_or_replay-Covered :
      (o : Option Status) (p : ℕ) (a : Spelled) (c : Text) (k : Key) (r : ℤ) (to : Accounts)
      (s : Session P)
      → Covered s.db
      → r
        ≡ posted p OperationType.capture s.db.transactions
          -ℤ posted p OperationType.refund s.db.transactions
      → replay (transaction_at (detailed KeyKind.tx_refund p a c) s.db) r ≡ o
      → OnReturn (λ (t : Session P). Covered t.db) (refund_or_replay provider o p a c k r to s)
  unfolding refund_or_replay pure
  refund_or_replay-Covered (some st) p a c k r to s h left e = h
  refund_or_replay-Covered none p a c k r to s h left e =
      refund_new-Covered p a c k r to s h left (λ id t at. replay-pending _ r id t at e)

  refund-Covered :
      (p : ℕ) (a : Spelled) (c : Text) (to : Accounts) → KeepsDb Covered (refund provider p a c to)
  unfolding refund
  refund-Covered p a c to = record {
    at = λ s h.
        query-Ensures (λ st t. Covered t.db) _ _ s
          (or_raise-Ensures _ _ _ _ s (λ v found. raise_if-Ensures _ _ _ _ s (λ refundable.
            lift-Ensures _ _ _ s (λ x valid.
              query-Ensures (λ st t. Covered t.db) _ _ s
                (query-Ensures (λ st t. Covered t.db) _ _ s
                  (refund_or_replay-Covered _ p x.0 x.1 _ _ to s h refl refl))))));
    uncommitted = (refund-keeps provider p a c to).uncommitted;
  }

  capture-Covered :
      (p : ℕ) (a : ℤ) (c : Text) (to : Accounts) → KeepsDb Covered (capture provider p a c to)
  unfolding capture capture_new repeated
  capture-Covered p a c to =
      search (session_rules, keeps_rules, covered_rules, settle_capture-Covered) depth 16

  void-Covered : (p : ℕ) (a : ℤ) (c : Text) → KeepsDb Covered (void provider p a c)
  unfolding void void_new repeated
  void-Covered p a c =
      search (session_rules, keeps_rules, covered_rules, settle_void-Covered) depth 16

-- The calls of the lifecycle, each in its own unit of work.
pub data Call : Type 0 where
  capturing voiding : ℕ → ℤ → Text → Accounts → Call
  refunding : ℕ → Spelled → Text → Accounts → Call

module _ {P : Type 0} (provider : PaymentProvider P ℕ Key) where
  unfoldable pub run : Session P → Call → Session P
  run s (capturing p a c to) = (unit_of_work (capture provider p a c to) s).1
  run s (voiding p a c to) = (unit_of_work (void provider p a c) s).1
  run s (refunding p a c to) = (unit_of_work (refund provider p a c to) s).1

  unfoldable pub run_all : Session P → List Call → Session P
  run_all s [] = s
  run_all s (k ∷ ks) = run_all (run s k) ks

  run-Covered :
      (s : Session P) (k : Call)
      → Covered s.durable
      → Covered s.db
      → Covered (run s k).durable × Covered (run s k).db
  unfolding run
  run-Covered s (capturing p a c to) h i =
      unit_of_work-keeps Covered _ (capture-Covered provider p a c to) s h i
  run-Covered s (voiding p a c to) h i =
      unit_of_work-keeps Covered _ (void-Covered provider p a c) s h i
  run-Covered s (refunding p a c to) h i =
      unit_of_work-keeps Covered _ (refund-Covered provider p a c to) s h i

  run_all-Covered :
      (s : Session P) (ks : List Call)
      → Covered s.durable
      → Covered s.db
      → Covered (run_all s ks).durable
  unfolding run_all
  run_all-Covered s [] h i = h
  run_all-Covered s (k ∷ ks) h i =
      let r = run-Covered s k h i in run_all-Covered (run s k) ks r.0 r.1

  -- Whatever payments are captured, voided and refunded, with whatever amounts and keys, in any order,
  -- whatever the provider answers and whichever calls raise: of no payment more is refunded than is
  -- captured, when that is so at the start, the ids of the transactions are distinct and below the
  -- next one, and the key of each refund tells its payment and its amount.
  pub run_all-covers :
      (s : Session P) (ks : List Call)
      → Covered s.durable
      → Covered s.db
      → (payment : ℕ)
      → posted_sum payment OperationType.refund (run_all s ks).durable
        ≤ℤ posted_sum payment OperationType.capture (run_all s ks).durable
  run_all-covers s ks h i payment = (run_all-Covered s ks h i).within payment
