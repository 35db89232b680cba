-- ===== src/OutboxWorker/Tests.antt =====
-- Runs and instances for the outbox's worker.
use agent_pay.Prelude.{
  Text, codes, none, some, ok, [], ◌∷◌, ◌≡◌, refl, lookup, modify, eq_of_discrete, ℕ_eq,
}
use agent_pay.Prelude.Exec.{◌>>=◌, update, raise_if}
use agent_pay.Outbox.{claim_rows, claim_batch, mark_failed}
use agent_pay.OutboxWorker.{
  account_for, record_audit, audit, publish, after_publish, process_event, process_all,
  process_once,
}
use agent_pay.OutboxWorker.Unpublished.{IsIdle, process_once-IsIdle}
use agent_pay.Provider.{MockProvider}
use agent_pay.Samples
use agent_pay.Samples.{with_payment}
use agent_pay.Store.{
  Db, EventType, OutboxEvent, OutboxStatus, OutboxStatus-discrete, Status, Key, Session, on_db,
  unit_of_work, on_conflict,
}

abbrev started : OutboxEvent
started = record {
  event_type = EventType.payment_started 5;
  aggregate_id = 1;
  correlation_id = none;
  status = OutboxStatus.pending;
  attempts = 0;
  available_at = 0;
  processing_at = none;
  published_at = none;
  last_error = none;
}

-- One event waits, and its audit record is not there yet.
abbrev waiting : Db
waiting = record (with_payment Status.processing) { outbox_events = (8, started) ∷ [] }

abbrev session : Session (MockProvider Key Text)
session = record { durable = waiting; db = waiting; provider = Samples.approving }

process_once-IsIdle_example :
    ((process_once 50 session).0 ≡ ok 0) × IsIdle session (process_once 50 session).1
process_once-IsIdle_example = process_once-IsIdle 50 session refl

-- The event is claimed once and waits for two seconds.
tried_once :
    lookup 8 (process_once 50 session).1.db.outbox_events
    ≡ some (record started {
      attempts = 1;
      available_at = 102;
      last_error = some (
          codes
            "there is no unique or exclusion constraint matching the ON CONFLICT specification");
    })
unfolding process_once process_all process_event after_publish publish audit record_audit
    on_conflict account_for claim_batch claim_rows mark_failed unit_of_work on_db ◌>>=◌ update
    raise_if lookup modify eq_of_discrete OutboxStatus-discrete
tried_once = refl
