-- ===== src/Outbox.antt =====
-- reference/implementation/src/agent_pay/outbox.py: the outbox of the database.
pub mod Settled
mod Tests
use agent_pay.Prelude.{
  ℕ, ◌+◌, ◌-◌, ℤ, pos, pos_part, ltb_ℤ, ltb, leb, Text, codes, Eq, ◌==◌, ℕ_eq, Bool, true, false,
  ◌&&◌, ◌||◌, Option, none, some, or_else, modify, modify_where, append_row, List, [], ◌∷◌, Table,
  length, filter, if◌then◌else◌,
}
use agent_pay.Prelude.Errors.{Error.value_error}
use agent_pay.Prelude.Exec.{Exec, pure, gets, ◌>>=◌, ◌>>◌, update, raise_if}
use agent_pay.Store.{Db, OutboxEvent, EventType, OutboxStatus, OutboxStatus_eq, fresh_id}

abbrev pub new_event : EventType → ℕ → Option Text → ℕ → OutboxEvent
new_event event_type aggregate correlation now = record {
  event_type = event_type;
  aggregate_id = aggregate;
  correlation_id = correlation;
  status = OutboxStatus.pending;
  attempts = 0;
  available_at = now;
  processing_at = none;
  published_at = none;
  last_error = none;
}

-- `enqueue`
unfoldable pub enqueue : EventType → ℕ → Option Text → Exec Db ℕ
enqueue event_type aggregate correlation = do
  id ← fresh_id
  update (λ db. record db {
    outbox_events =
        append_row id (new_event event_type aggregate correlation db.now) db.outbox_events;
  })
  pure id

-- status='PENDING' AND available_at <= now()
abbrev pub is_due : ℕ → OutboxEvent → Bool
is_due now e = e.status == OutboxStatus.pending && leb e.available_at now

abbrev pub claimed : ℕ → OutboxEvent → OutboxEvent
claimed now e = record e {
  status = OutboxStatus.processing;
  attempts = e.attempts + 1;
  processing_at = some now;
}

-- The UPDATE of `claim_batch`: the first `limit` events that are due, and the rows it returns.
unfoldable pub claim_rows : ℕ → ℕ → Table OutboxEvent → Table OutboxEvent × List (ℕ × OutboxEvent)
claim_rows now limit [] = ([], [])
claim_rows now limit ((id, e) ∷ t) =
    let takes = is_due now e && ltb 0 limit in
    let rest = claim_rows now (if takes then limit - 1 else limit) t in
    if takes
    then ((id, claimed now e) ∷ rest.0, (id, claimed now e) ∷ rest.1)
    else ((id, e) ∷ rest.0, rest.1)

-- `claim_batch`
unfoldable pub claim_batch : ℕ → Exec Db (List (ℕ × OutboxEvent))
claim_batch limit = do
  claim ← gets (λ db. claim_rows db.now limit db.outbox_events)
  update (λ db. record db { outbox_events = claim.0 })
  pure claim.1

-- An UPDATE of one event that is being processed.
abbrev pub if_processing : (OutboxEvent → OutboxEvent) → OutboxEvent → OutboxEvent
if_processing f e = if e.status == OutboxStatus.processing then f e else e

-- `mark_published`
unfoldable pub mark_published : ℕ → Exec Db (Unit {0})
mark_published event = update (λ db. record db {
  outbox_events =
      modify event
        (if_processing (λ e. record e {
          status = OutboxStatus.published;
          published_at = some db.now;
          processing_at = none;
        }))
        db.outbox_events;
})

-- `mark_failed`
unfoldable pub mark_failed : ℕ → ℤ → Option Text → Exec Db (Unit {0})
mark_failed event retry_after error = do
  raise_if (ltb_ℤ retry_after (pos 0)) (value_error "retry_after_seconds must be non-negative")
  update (λ db. record db {
    outbox_events =
        modify event
          (if_processing (λ e. record e {
            status = OutboxStatus.pending;
            available_at = db.now + pos_part retry_after;
            last_error = error;
            processing_at = none;
          }))
          db.outbox_events;
  })

-- processing_at < now() - lease
abbrev pub is_older : ℕ → ℤ → Option ℕ → Bool
is_older now lease none = false
is_older now lease (some at) = ltb (at + pos_part lease) now

abbrev pub is_stale : ℕ → ℤ → OutboxEvent → Bool
is_stale now lease e = e.status == OutboxStatus.processing && is_older now lease e.processing_at

abbrev pub recovered : ℕ → ℤ → OutboxEvent → OutboxEvent
recovered now most e = record e {
  status =
      if leb (pos_part most) e.attempts then OutboxStatus.dead_letter else OutboxStatus.pending;
  available_at = now;
  processing_at = none;
  last_error = or_else e.last_error (some (codes "worker lease expired"));
}

-- The UPDATE of `recover_stale`.
unfoldable pub recover_rows : ℤ → ℤ → Exec Db (Unit {0})
recover_rows lease most = update (λ db. record db {
  outbox_events = modify_where (is_stale db.now lease) (recovered db.now most) db.outbox_events;
})

-- `recover_stale`
unfoldable pub recover_stale : ℤ → ℤ → Exec Db ℕ
recover_stale lease most = do
  raise_if (ltb_ℤ lease (pos 1) || ltb_ℤ most (pos 1))
      (value_error "lease_seconds and max_attempts must be positive")
  stale ← gets (λ db. length (filter (λ row. is_stale db.now lease row.1) db.outbox_events))
  recover_rows lease most
  pure stale
