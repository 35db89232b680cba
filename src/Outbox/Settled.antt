-- ===== src/Outbox/Settled.antt =====
-- Events that are published or given up stay as they are.
use agent_pay.Prelude.{
  ℕ, ◌-◌, ℤ, length, eq_of_discrete, Text, Option, some, List, [], ◌∷◌, Bool, ◌≡◌, lookup, Result,
  ok, err, Table, ◌==◌, true, false, ◌||◌, modify, modify_where, append_row, lookup-append_row,
  lookup-modify, arith, refl, ◌∙◌, leb, ℕ_eq,
}
use agent_pay.Prelude.Exec.{Exec, update, pure, ◌>>=◌, ◌>>◌}
use agent_pay.Prelude.Exec.Keeps.{Keeps, keeps_rules, update-Keeps, OnReturn}
use agent_pay.Outbox.{
  enqueue, claim_batch, claim_rows, claimed, mark_published, mark_failed, if_processing, is_stale,
  recovered, recover_rows, recover_stale,
}
use agent_pay.Store.{
  Db, OutboxEvent, EventType, OutboxStatus, OutboxStatus_eq, OutboxStatus-discrete, fresh_id,
}

-- No worker touches the event any more.
abbrev pub is_settled : OutboxEvent → Bool
is_settled e = e.status == OutboxStatus.published || e.status == OutboxStatus.dead_letter

-- The calls of the publishers.
pub data Call : Type 0 where
  enqueuing : EventType → ℕ → Option Text → Call
  claiming publishing : ℕ → Call
  failing : ℕ → ℤ → Option Text → Call
  recovering : ℤ → ℤ → Call

unfoldable pub run : Call → Exec Db (Unit {0})
run (enqueuing t a c) = enqueue t a c >> pure tt
run (claiming n) = claim_batch n >> pure tt
run (publishing id) = mark_published id
run (failing id s t) = mark_failed id s t
run (recovering l m) = recover_stale l m >> pure tt

module _ (event : ℕ) (e : OutboxEvent) (over : is_settled e ≡ true) where
  not_open :
      ((e.status == OutboxStatus.pending) ≡ false) × ((e.status == OutboxStatus.processing) ≡ false)
  not_open = ground (
    arith,
    OutboxStatus_eq.beq_iff e.status OutboxStatus.pending,
    OutboxStatus_eq.beq_iff e.status OutboxStatus.processing,
    OutboxStatus_eq.beq_iff e.status OutboxStatus.published,
    OutboxStatus_eq.beq_iff e.status OutboxStatus.dead_letter,
  )

  abbrev Lasts : Table OutboxEvent → Type 0
  Lasts t = lookup event t ≡ some e

  claim_rows-Lasts :
      (now limit : ℕ) (t : Table OutboxEvent) → Lasts t → Lasts (claim_rows now limit t).0
  unfolding claim_rows lookup
  claim_rows-Lasts now limit [] h = h
  claim_rows-Lasts now limit ((id, d) ∷ t) h =
      ground (arith, not_open, claim_rows-Lasts now limit t, claim_rows-Lasts now (limit - 1) t)

  modify_where-Lasts :
      (p : OutboxEvent → Bool) (f : OutboxEvent → OutboxEvent) (t : Table OutboxEvent)
      → p e ≡ false
      → Lasts t
      → Lasts (modify_where p f t)
  unfolding modify_where lookup
  modify_where-Lasts p f [] out h = h
  modify_where-Lasts p f ((id, d) ∷ t) out h = ground (arith, modify_where-Lasts p f t out)

  append_row-Lasts :
      (k : ℕ) (v : OutboxEvent) (t : Table OutboxEvent) → Lasts t → Lasts (append_row k v t)
  append_row-Lasts k v t h = lookup-append_row k event v t ∙ rw h

  modify-Lasts :
      (k : ℕ) (f : OutboxEvent → OutboxEvent) (t : Table OutboxEvent)
      → Lasts t
      → Lasts (modify k (if_processing f) t)
  modify-Lasts k f t h = ground (arith, lookup-modify k event (if_processing f) t, not_open)

  abbrev Stands : Db → Type 0
  Stands db = Lasts db.outbox_events

  fresh_id-Stands : Keeps Stands fresh_id
  unfolding fresh_id
  fresh_id-Stands = record { at = λ db h. h }

  claim_batch-Stands : (n : ℕ) → Keeps Stands (claim_batch n)
  unfolding claim_batch ◌>>=◌ update
  claim_batch-Stands n = record { at = λ db h. claim_rows-Lasts db.now n db.outbox_events h }

  recover_rows-Stands : (l m : ℤ) → Keeps Stands (recover_rows l m)
  unfolding recover_rows
  recover_rows-Stands l m =
      update-Keeps
        (λ db. record db {
          outbox_events = modify_where (is_stale db.now l) (recovered db.now m) db.outbox_events;
        })
        (λ db h.
          modify_where-Lasts (is_stale db.now l) (recovered db.now m) db.outbox_events
            (rw not_open.1) h)

  recover_stale-Stands : (l m : ℤ) → Keeps Stands (recover_stale l m)
  unfolding recover_stale
  recover_stale-Stands l m = search (keeps_rules, recover_rows-Stands) depth 9

  run-Stands : (c : Call) → Keeps Stands (run c)
  unfolding run enqueue mark_published mark_failed
  run-Stands (enqueuing t a c) =
      search (keeps_rules, fresh_id-Stands, update-Keeps, append_row-Lasts) depth 9
  run-Stands (claiming n) = search (keeps_rules, claim_batch-Stands) depth 9
  run-Stands (publishing id) = search (keeps_rules, update-Keeps, modify-Lasts) depth 9
  run-Stands (failing id s t) = search (keeps_rules, update-Keeps, modify-Lasts) depth 9
  run-Stands (recovering l m) = search (keeps_rules, recover_stale-Stands) depth 9

abbrev committed : Result (Unit {0}) × Db → Db → Db
committed (ok u, t) db = t
committed (err e, t) db = db

-- Calls in their units of work: a call that raises is rolled back. Time passes between the calls.
unfoldable pub after : Db → ℕ × Call → Db
after db c = let start = record db { now = c.0 } in committed (run c.1 start) start

unfoldable pub after_all : Db → List (ℕ × Call) → Db
after_all db [] = db
after_all db (c ∷ cs) = after_all (after db c) cs

after-stands :
    (event : ℕ) (e : OutboxEvent) (db : Db) (c : ℕ × Call)
    → is_settled e ≡ true
    → lookup event db.outbox_events ≡ some e
    → lookup event (after db c).outbox_events ≡ some e
unfolding after
after-stands event e db (now, c) over h =
    go (run c (record db { now = now }))
      ((run-Stands event e over c).at (record db { now = now }) h)
  where
    go :
        (r : Result (Unit {0}) × Db)
        → OnReturn (λ s. lookup event s.outbox_events ≡ some e) r
        → lookup event (committed r (record db { now = now })).outbox_events ≡ some e
    go (ok u, t) k = k
    go (err x, t) k = h

-- An event that is published, or given up as a dead letter, is the same row after any calls of
-- `enqueue`, `claim_batch`, `mark_published`, `mark_failed` and `recover_stale`, at any times: it is
-- not published again.
pub settled-stays :
    (event : ℕ) (e : OutboxEvent) (db : Db) (cs : List (ℕ × Call))
    → is_settled e ≡ true
    → lookup event db.outbox_events ≡ some e
    → lookup event (after_all db cs).outbox_events ≡ some e
unfolding after_all
settled-stays event e db [] over h = h
settled-stays event e db (c ∷ cs) over h =
    settled-stays event e (after db c) cs over (after-stands event e db c over h)

-- `claim_batch` hands out at most `limit` events.
pub claim_rows-limit :
    (now limit : ℕ) (t : Table OutboxEvent) → leb (length (claim_rows now limit t).1) limit ≡ true
unfolding claim_rows
claim_rows-limit now limit [] = ground arith
claim_rows-limit now limit ((id, e) ∷ t) =
    ground (arith, claim_rows-limit now limit t, claim_rows-limit now (limit - 1) t)

now_processing :
    (now : ℕ) (e : OutboxEvent) → ((claimed now e).status == OutboxStatus.pending) ≡ false
unfolding OutboxStatus-discrete eq_of_discrete
now_processing now e = refl

-- After a claim whose limit is at least the number of events, a second claim at the same moment hands
-- out nothing.
pub claim_rows-exclusive :
    (now limit again : ℕ) (t : Table OutboxEvent)
    → leb (length t) limit ≡ true
    → (claim_rows now again (claim_rows now limit t).0).1 ≡ []
unfolding claim_rows
claim_rows-exclusive now limit again [] h = refl
claim_rows-exclusive now limit again ((id, e) ∷ t) h = ground (
  arith,
  now_processing now e,
  claim_rows-exclusive now limit again t,
  claim_rows-exclusive now (limit - 1) again t,
)
