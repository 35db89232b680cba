-- ===== src/OutboxWorker.antt =====
-- reference/implementation/src/agent_pay/outbox_worker.py, and the inserts of audit.py
pub mod Unpublished
mod Tests
use agent_pay.Prelude.{
  ℕ, suc, ◌+◌, ◌^◌, min, ℤ, pos, Text, codes, ◌==◌, ℕ_eq, nat_eq, Bool, true, false, Option, none,
  some, lookup, append_row, find_row, List, [], ◌∷◌, Error, Result, ok, err,
}
use agent_pay.Prelude.Errors.{
  Error.value_error, Error.permission_error, Error.lookup_error, Error.http_error,
  Error.integrity_error, Error.database_error, Error.runtime_error,
}
use agent_pay.Prelude.Exec.{Exec, pure, gets, lift, or_raise, choose, ◌>>=◌, ◌>>◌, update}
use agent_pay.Outbox.{claim_batch, mark_published, mark_failed}
use agent_pay.Store.{
  Db, Payment, PaymentRequest, OutboxEvent, EventType, AuditEvent, Notification, Session, on_db,
  unit_of_work, IndexKind, on_conflict, fresh_id,
}

abbrev account_of_request : Option PaymentRequest → Option ℕ
account_of_request none = none
account_of_request (some r) = some r.account_id

abbrev account_of_payment : Option Payment → Db → Option ℕ
account_of_payment none db = none
account_of_payment (some p) db =
    account_of_request (lookup p.payment_request_id db.payment_requests)

-- `_account_for`: every event that the program enqueues is about a payment.
unfoldable pub account_for : ℕ → Db → Option ℕ
account_for aggregate db = account_of_payment (lookup aggregate db.payments) db

-- event_type == "NotificationRequested"
abbrev pub is_notification : EventType → Bool
is_notification (EventType.notification_requested amount currency) = true
is_notification other = false

-- event_type in AUDITABLE_EVENTS: every other event that the program enqueues.
abbrev pub is_auditable : EventType → Bool
is_auditable (EventType.notification_requested amount currency) = false
is_auditable other = true

-- INSERT ... DO NOTHING, then the id of the row that is there.
unfoldable pub insert_audit : Option (ℕ × AuditEvent) → AuditEvent → Exec Db ℕ
insert_audit (some (id, row)) a = pure id
insert_audit none a = do
  id ← fresh_id
  update (λ db. record db { audit_events = append_row id a db.audit_events })
  pure id

-- `record_audit`: ON CONFLICT (event_id), for which migration 010 has an index with a WHERE.
unfoldable pub record_audit : AuditEvent → Exec Db ℕ
record_audit a = on_conflict IndexKind.partial (do
  existing ← gets (λ db. find_row (λ b. b.event_id == a.event_id) db.audit_events)
  insert_audit existing a)

-- INSERT ... DO NOTHING, then the id of the row that is there.
unfoldable pub insert_notification : Option (ℕ × Notification) → Notification → Exec Db ℕ
insert_notification (some (id, row)) n = pure id
insert_notification none n = do
  id ← fresh_id
  update (λ db. record db { notifications = append_row id n db.notifications })
  pure id

-- `enqueue_notification`: ON CONFLICT (source_event_id), whose index has a WHERE too.
unfoldable pub enqueue_notification : Notification → Exec Db ℕ
enqueue_notification n = on_conflict IndexKind.partial (do
  existing ← gets (λ db. find_row (λ b. b.source_event_id == n.source_event_id) db.notifications)
  insert_notification existing n)

abbrev pub audit_of : ℕ → OutboxEvent → Option ℕ → AuditEvent
audit_of id e account = record {
  event_id = id;
  account_id = account;
  action = e.event_type;
  resource_id = e.aggregate_id;
  correlation_id = e.correlation_id;
}

unfoldable pub audit : ℕ → OutboxEvent → Option ℕ → Exec Db (Unit {0})
audit id e account = do _ ← record_audit (audit_of id e account); pure tt

unfoldable pub notify : ℕ → OutboxEvent → Option ℕ → Exec Db (Unit {0})
notify id e account = do
  to ← or_raise account (value_error "notification event has no account")
  _ ←
      enqueue_notification
        (record { account_id = to; source_event_id = id; payload = e.event_type })
  pure tt

-- The unit of work of one event that is claimed.
unfoldable pub publish : ℕ → OutboxEvent → Exec Db (Unit {0})
publish id e = do
  account ← gets (account_for e.aggregate_id)
  choose (is_auditable e.event_type) (audit id e account) (pure tt)
  choose (is_notification e.event_type) (notify id e account) (pure tt)
  mark_published id

-- str(exc)
abbrev message : Error → Text
message (value_error reason) = codes reason
message (permission_error reason) = codes reason
message (lookup_error reason) = codes reason
message (http_error status reason) = codes reason
message (integrity_error reason) = codes reason
message (database_error reason) = codes reason
message (runtime_error reason) = codes reason

-- min(300, 2 ** min(attempts, 8))
abbrev pub backoff : ℕ → ℕ
backoff attempts = min 300 (2 ^ min attempts 8)

module _ {P : Type 0} where
  -- The `except` of one event; the count goes up when nothing is raised.
  unfoldable pub after_publish : Result (Unit {0}) → ℕ → OutboxEvent → ℕ → Exec (Session P) ℕ
  after_publish (ok u) id e processed = pure (suc processed)
  after_publish (err x) id e processed = do
    unit_of_work (on_db (mark_failed id (pos (backoff e.attempts)) (some (message x))))
    pure processed

  unfoldable pub process_event : ℕ → OutboxEvent → ℕ → Exec (Session P) ℕ
  process_event id e processed s =
      let (r, t) = unit_of_work (on_db (publish id e)) s in after_publish r id e processed t

  -- The loop over the events that are claimed.
  unfoldable pub process_all : List (ℕ × OutboxEvent) → ℕ → Exec (Session P) ℕ
  process_all [] processed = pure processed
  process_all ((id, e) ∷ claimed) processed =
      process_event id e processed >>= λ done. process_all claimed done

  -- `process_once`
  unfoldable pub process_once : ℕ → Exec (Session P) ℕ
  process_once limit = do claimed ← unit_of_work (on_db (claim_batch limit)); process_all claimed 0
