-- ===== src/Lifecycle/Capture.antt =====
-- What capture and void return, and what a repeated call does.
use mathlib.Core.Path.{subst}
use agent_pay.Prelude.{ℕ, ℤ, Text, Option, none, some, lookup, ◌≡◌, refl, arith, ok, ℕ_eq, map_some}
use agent_pay.Prelude.Exec.{Exec, ◌>>=◌, pure}
use agent_pay.Prelude.Exec.Keeps.{
  Ensures, bind-Ensures, weaken-Ensures, raise_if-Ensures, or_raise-Ensures, choose-Ensures,
  then-Ensures,
}
use agent_pay.Lifecycle.{
  Accounts, validate_operation_amount, settle_capture, settle_void, repeated, capture_new, capture,
  void_new, void,
}
use agent_pay.Lifecycle.Stored.{
  Stands, update_status-Stands, post_journal-Stands, create_transaction-Stands,
  create_provider_operation-Stands,
}
use agent_pay.Provider.{
  PaymentProvider, ProviderOutcome, ProviderOutcome.succeeded, ProviderOutcome.failed,
  ProviderOutcome.unknown,
}
use agent_pay.Store.Returns.{on_db-Ensures, lift-Ensures, on_provider-Ensures, query-Ensures}
use agent_pay.Store.{Db, Payment, Status, Status_eq, Key, Session, on_db, on_provider}

module _ (payment : ℕ) (amount : ℤ) (currency : Text) where
  abbrev In : Status → Db → Type 0
  In status = Stands payment amount currency status

  abbrev Returns : Status → Db → Type 0
  Returns status db = In status db

  settle_capture-Returns :
      (o : ProviderOutcome) (a : ℤ) (c : Text) (to : Accounts) (old : Status) (db : Db)
      → In old db
      → Ensures Returns (settle_capture o payment a c to db)
  unfolding settle_capture pure
  settle_capture-Returns unknown a c to old db h =
      bind-Ensures (λ u t. In Status.unknown_external_outcome t) _ _ _ db
        (update_status-Stands old Status.unknown_external_outcome none db h) (λ u t k. k)
  settle_capture-Returns failed a c to old db h =
      bind-Ensures (λ u t. In Status.failed t) _ _ _ db
        (update_status-Stands old Status.failed none db h)
        (λ u t k.
          then-Ensures _ (In Status.failed) _ _ t (create_transaction-Stands _ _ _ _ _ _) k
            (λ id w r. r))
  settle_capture-Returns succeeded a c to old db h =
      then-Ensures _ (In old) _ _ db (create_transaction-Stands _ _ _ _ _ _) h (λ id t k.
        then-Ensures _ (In old) _ _ t (post_journal-Stands _ _) k (λ j w r.
          bind-Ensures (λ u x. In Status.succeeded x) _ _ _ w
            (update_status-Stands old Status.succeeded none w r) (λ u x q. q)))

  settle_void-Returns :
      (o : ProviderOutcome) (a : ℤ) (c : Text) (old : Status) (db : Db)
      → In old db
      → Ensures Returns (settle_void o payment a c db)
  unfolding settle_void pure
  settle_void-Returns unknown a c old db h =
      bind-Ensures (λ u t. In Status.unknown_external_outcome t) _ _ _ db
        (update_status-Stands old Status.unknown_external_outcome none db h) (λ u t k. k)
  settle_void-Returns failed a c old db h =
      bind-Ensures (λ u t. In Status.void_failed t) _ _ _ db
        (update_status-Stands old Status.void_failed none db h)
        (λ u t k.
          then-Ensures _ (In Status.void_failed) _ _ t (create_transaction-Stands _ _ _ _ _ _) k
            (λ id w r. r))
  settle_void-Returns succeeded a c old db h =
      then-Ensures _ (In old) _ _ db (create_transaction-Stands _ _ _ _ _ _) h (λ id t k.
        bind-Ensures (λ u x. In Status.voided x) _ _ _ t
          (update_status-Stands old Status.voided none t k) (λ u x q. q))

standing :
    (payment : ℕ) (v : Payment) (db : Db)
    → lookup payment db.payments ≡ some v
    → Stands payment v.amount v.currency v.status db
standing payment v db found = record {
  row = v;
  found = found;
  same_amount = refl;
  same_currency = refl;
  same_status = refl;
}

module _ {P : Type 0} (payment : ℕ) (amount : ℤ) (currency : Text) where
  -- What a validated call leaves: the payment's row in the returned status, and a row that the same
  -- arguments fit.
  record Stored (status : Status) (t : Session P) : Type 0 where
    row : Payment
    found : lookup payment t.db.payments ≡ some row
    same_status : row.status ≡ status
    fits :
        (x : ℤ × Text) × (validate_operation_amount amount currency row.amount row.currency ≡ ok x)

  of_row :
      (status : Status) (v : Payment) (x : ℤ × Text) (t : Session P)
      → validate_operation_amount amount currency v.amount v.currency ≡ ok x
      → Stands payment v.amount v.currency status t.db
      → Stored status t
  of_row status v x t valid h = record {
    row = h.row;
    found = h.found;
    same_status = h.same_status;
    fits = (x, rw (h.same_amount, h.same_currency) valid);
  }

  repeated-Stored :
      (status : Status) (v : Payment) (s : Session P)
      → lookup payment s.db.payments ≡ some v
      → v.status ≡ status
      → Ensures (λ st t. Stored st t) (repeated status amount currency v s)
  unfolding repeated pure
  repeated-Stored status v s found same =
      lift-Ensures _ _ _ s
        (λ x valid. record { row = v; found = found; same_status = same; fits = (x, valid) })

  -- The steps from the provider's call on.
  settled :
      (v : Payment) (old : Status) (g : P → ProviderOutcome × P)
      (settle : ProviderOutcome → Exec Db Status) (t : Session P)
      → Stands payment v.amount v.currency old t.db
      → ((o : ProviderOutcome) (db : Db)
          → Stands payment v.amount v.currency old db
          → Ensures (λ st d. Stands payment v.amount v.currency st d) (settle o db))
      → Ensures
          (λ st w. Stands payment v.amount v.currency st w.db)
          ((on_provider g >>= λ o. on_db (settle o)) t)
  settled v old g settle t h ends =
      on_provider-Ensures (λ st d. Stands payment v.amount v.currency st d) _ _ t
        (λ o w same.
          on_db-Ensures (λ st d. Stands payment v.amount v.currency st d) (settle o) w
            (ends o w.db (rw same h)))

  module _ (provider : PaymentProvider P ℕ Key) where
    capture_new-Stored :
        (to : Accounts) (v : Payment) (s : Session P)
        → lookup payment s.db.payments ≡ some v
        → Ensures (λ st t. Stored st t) (capture_new provider payment amount currency to v s)
    unfolding capture_new
    capture_new-Stored to v s found = raise_if-Ensures _ _ _ _ s (λ authorized.
        lift-Ensures _ _ _ s (λ x valid.
          weaken-Ensures (λ st t. Stands payment v.amount v.currency st t.db) _ _
            (bind-Ensures (λ id t. Stands payment v.amount v.currency v.status t.db) _ _ _ s
              (on_db-Ensures (λ id d. Stands payment v.amount v.currency v.status d) _ s
                ((create_provider_operation-Stands _ _).at s.db (standing payment v s.db found)))
              (λ id t k. lift-Ensures _ _ _ t (λ minor cents.
                settled v v.status _ (λ o. settle_capture o payment x.0 x.1 to) t k
                  (λ o db h.
                    settle_capture-Returns payment v.amount v.currency o x.0 x.1 to v.status db
                      h))))
            (λ st t h. of_row st v x t valid h)))

    void_new-Stored :
        (v : Payment) (s : Session P)
        → lookup payment s.db.payments ≡ some v
        → Ensures (λ st t. Stored st t) (void_new provider payment amount currency v s)
    unfolding void_new
    void_new-Stored v s found = raise_if-Ensures _ _ _ _ s (λ authorized.
        lift-Ensures _ _ _ s (λ x valid.
          weaken-Ensures (λ st t. Stands payment v.amount v.currency st t.db) _ _
            (bind-Ensures (λ u t. Stands payment v.amount v.currency Status.void_requested t.db) _ _
              _ s
              (on_db-Ensures (λ u d. Stands payment v.amount v.currency Status.void_requested d) _ s
                (update_status-Stands v.status Status.void_requested none s.db
                  (standing payment v s.db found)))
              (λ u r q.
                bind-Ensures (λ id t. Stands payment v.amount v.currency Status.void_requested t.db)
                  _ _ _ r
                  (on_db-Ensures
                    (λ id d. Stands payment v.amount v.currency Status.void_requested d) _ r
                    ((create_provider_operation-Stands _ _).at r.db q))
                  (λ id t k. lift-Ensures _ _ _ t (λ minor cents.
                    settled v Status.void_requested _ (λ o. settle_void o payment x.0 x.1) t k
                      (λ o db h.
                        settle_void-Returns payment v.amount v.currency o x.0 x.1
                          Status.void_requested db h)))))
            (λ st t h. of_row st v x t valid h)))

    capture-Stored :
        (to : Accounts) (s : Session P)
        → Ensures (λ st t. Stored st t) (capture provider payment amount currency to s)
    unfolding capture
    capture-Stored to s = query-Ensures _ _ _ s (
        or_raise-Ensures _ _ _ _ s (λ v found.
          choose-Ensures _ _ _ _ s
            (λ done.
              repeated-Stored Status.succeeded v s found
                ((Status_eq.beq_iff v.status Status.succeeded).0 done))
            (λ more. capture_new-Stored to v s found)))

    void-Stored :
        (s : Session P) → Ensures (λ st t. Stored st t) (void provider payment amount currency s)
    unfolding void
    void-Stored s = query-Ensures _ _ _ s (
        or_raise-Ensures _ _ _ _ s (λ v found.
          choose-Ensures _ _ _ _ s
            (λ done.
              repeated-Stored Status.voided v s found
                ((Status_eq.beq_iff v.status Status.voided).0 done))
            (λ more. void_new-Stored v s found)))

-- The status in the payment's row.
abbrev pub status_at : ℕ → Db → Option Status
status_at payment db = map_some (λ p. p.status) (lookup payment db.payments)

module _ {P : Type 0} (provider : PaymentProvider P ℕ Key) (payment : ℕ) (amount : ℤ)
    (currency : Text) where
  -- When a capture returns, the status that it returns is the status in the payment's row.
  pub capture-status :
      (to : Accounts) (s : Session P)
      → Ensures
          (λ st t. status_at payment t.db ≡ some st)
          (capture provider payment amount currency to s)
  capture-status to s =
      weaken-Ensures (Stored payment amount currency) _
        (capture provider payment amount currency to s)
        (capture-Stored payment amount currency provider to s)
        (λ st t h. rw (h.found, h.same_status))

  -- When a void returns, the status that it returns is the status in the payment's row.
  pub void-status :
      (s : Session P)
      → Ensures (λ st t. status_at payment t.db ≡ some st) (void provider payment amount currency s)
  void-status s =
      weaken-Ensures (Stored payment amount currency) _ (void provider payment amount currency s)
        (void-Stored payment amount currency provider s) (λ st t h. rw (h.found, h.same_status))

  capture-repeats :
      (to : Accounts) (t : Session P) (v : Payment) (x : ℤ × Text)
      → lookup payment t.db.payments ≡ some v
      → v.status ≡ Status.succeeded
      → validate_operation_amount amount currency v.amount v.currency ≡ ok x
      → capture provider payment amount currency to t ≡ (ok Status.succeeded, t)
  unfolding capture repeated on_db ◌>>=◌
  capture-repeats to t v x found done valid =
      ground (arith, Status_eq.beq_iff v.status Status.succeeded)

  void-repeats :
      (t : Session P) (v : Payment) (x : ℤ × Text)
      → lookup payment t.db.payments ≡ some v
      → v.status ≡ Status.voided
      → validate_operation_amount amount currency v.amount v.currency ≡ ok x
      → void provider payment amount currency t ≡ (ok Status.voided, t)
  unfolding void repeated on_db ◌>>=◌
  void-repeats t v x found done valid = ground (arith, Status_eq.beq_iff v.status Status.voided)

  -- A capture that has succeeded can be repeated: it succeeds again, and the database and the provider
  -- stay as they are, so the payment is captured once.
  pub capture-twice :
      (to : Accounts) (s t : Session P)
      → capture provider payment amount currency to s ≡ (ok Status.succeeded, t)
      → capture provider payment amount currency to t ≡ (ok Status.succeeded, t)
  capture-twice to s t h =
      let k =
        subst (λ r. Ensures (λ st u. Stored payment amount currency st u) r) h
          (capture-Stored payment amount currency provider to s) in
      capture-repeats to t k.row k.fits.0 k.found k.same_status k.fits.1

  -- A void that has succeeded can be repeated: it succeeds again, and the database and the provider
  -- stay as they are.
  pub void-twice :
      (s t : Session P)
      → void provider payment amount currency s ≡ (ok Status.voided, t)
      → void provider payment amount currency t ≡ (ok Status.voided, t)
  void-twice s t h =
      let k =
        subst (λ r. Ensures (λ st u. Stored payment amount currency st u) r) h
          (void-Stored payment amount currency provider s) in
      void-repeats t k.row k.fits.0 k.found k.same_status k.fits.1
