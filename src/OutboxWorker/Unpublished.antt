-- ===== src/OutboxWorker/Unpublished.antt =====
-- What the worker does with the events that it claims.
use agent_pay.Prelude.{
  ℕ, ◌-◌, pos, ltb_ℤ, ◌∙◌, Bool, true, false, Option, some, lookup, modify, List, [], ◌∷◌, Table,
  Error, Result, ok, err, ℕ_eq, ◌≡◌, ◌≢◌, refl, arith, Bool-cases, inl, inr,
}
use agent_pay.Prelude.Exec.{Exec, choose, continue, ◌>>=◌, update, raise_if}
use agent_pay.Prelude.Exec.Raises.{Raises, raise-Raises, first-Raises, rest-Raises}
use agent_pay.Outbox.{claim_rows, claimed, claim_batch, mark_failed, if_processing}
use agent_pay.OutboxWorker.{
  is_auditable, is_notification, record_audit, audit_of, audit, enqueue_notification, notify,
  publish, backoff, after_publish, process_event, process_all, process_once,
}
use agent_pay.Store.{
  Db, AuditEvent, Notification, EventType, OutboxEvent, OutboxStatus, OutboxStatus_eq, Session,
  on_db, on_conflict, unit_of_work,
}
use agent_pay.Store.Refused.{IsClean, unit_of_work-Raises}

record_audit-Raises : (a : AuditEvent) → Raises (record_audit a)
unfolding record_audit on_conflict
record_audit-Raises a = raise-Raises _

enqueue_notification-Raises : (n : Notification) → Raises (enqueue_notification n)
unfolding enqueue_notification on_conflict
enqueue_notification-Raises n = raise-Raises _

audit-Raises : (id : ℕ) (e : OutboxEvent) (o : Option ℕ) → Raises (audit id e o)
unfolding audit
audit-Raises id e o = first-Raises _ _ (record_audit-Raises (audit_of id e o))

notify-Raises : (id : ℕ) (e : OutboxEvent) (o : Option ℕ) → Raises (notify id e o)
unfolding notify
notify-Raises id e o = rest-Raises _ _ (λ to. first-Raises _ _ (enqueue_notification-Raises _))

notified : (t : EventType) → is_auditable t ≡ false → is_notification t ≡ true
notified (EventType.notification_requested a c) h = refl
notified (EventType.payment_started r) h = absurd (cc)
notified (EventType.payment_failed r) h = absurd (cc)
notified (EventType.payment_outcome_unknown r) h = absurd (cc)
notified EventType.budget_insufficient h = absurd (cc)
notified (EventType.policy_denied v) h = absurd (cc)
notified (EventType.budget_unavailable v) h = absurd (cc)
notified (EventType.user_denied a) h = absurd (cc)
notified (EventType.payment_approved a t) h = absurd (cc)
notified (EventType.approval_requested a b) h = absurd (cc)
notified (EventType.payment_succeeded a c) h = absurd (cc)

chosen-Raises :
    {S A : Type 0} (b : Bool) (m n : Exec S A) → b ≡ true → Raises m → Raises (choose b m n)
unfolding choose
chosen-Raises true m n e h = h
chosen-Raises false m n e h = absurd (cc)

-- Every event is auditable or a notification, and neither can be inserted.
publish-Raises : (id : ℕ) (e : OutboxEvent) → Raises (publish id e)
unfolding publish
publish-Raises id e = rest-Raises _ _ (λ account. elim (Bool-cases (is_auditable e.event_type)) [
  | inl auditable ↦ first-Raises _ _ (chosen-Raises _ _ _ auditable (audit-Raises id e account))
  | inr other ↦ rest-Raises _ _ (λ u.
      first-Raises _ _
        (chosen-Raises _ _ _ (notified e.event_type other) (notify-Raises id e account)))
])

-- The rows that the worker may write are the same, and a published event was published before.
pub record IsUnpublished (s t : Db) : Type 0 where
  pub audited : t.audit_events ≡ s.audit_events
  pub notified : t.notifications ≡ s.notifications
  pub published :
      (event : ℕ) (e : OutboxEvent)
      → lookup event t.outbox_events ≡ some e
      → e.status ≡ OutboxStatus.published
      → lookup event s.outbox_events ≡ some e

same-IsUnpublished : (s : Db) → IsUnpublished s s
same-IsUnpublished s = record { audited = refl; notified = refl; published = λ event e h k. h }

then-IsUnpublished : (s t u : Db) → IsUnpublished s t → IsUnpublished t u → IsUnpublished s u
then-IsUnpublished s t u h k = record {
  audited = k.audited ∙ h.audited;
  notified = k.notified ∙ h.notified;
  published = λ event e l m. h.published event e (k.published event e l m) m;
}

some_status : (d e : OutboxEvent) → some d ≡ some e → d.status ≡ e.status
some_status d e same = cc

other_status :
    (d e : OutboxEvent)
    → some d ≡ some e
    → e.status ≡ OutboxStatus.published
    → d.status ≢ OutboxStatus.published
    → ⊥
other_status d e same k n = n (some_status d e same ∙ k)

claim_rows-published :
    (event : ℕ) (e : OutboxEvent) (now limit : ℕ) (t : Table OutboxEvent)
    → lookup event (claim_rows now limit t).0 ≡ some e
    → e.status ≡ OutboxStatus.published
    → lookup event t ≡ some e
unfolding claim_rows lookup
claim_rows-published event e now limit [] h k = h
claim_rows-published event e now limit ((id, d) ∷ t) h k = ground (
  arith,
  other_status (claimed now d) e,
  claim_rows-published event e now limit t,
  claim_rows-published event e now (limit - 1) t,
)

if_processing-published :
    (f : OutboxEvent → OutboxEvent) (event id : ℕ) (e : OutboxEvent) (t : Table OutboxEvent)
    → ((d : OutboxEvent) → (f d).status ≡ OutboxStatus.pending)
    → lookup event (modify id (if_processing f) t) ≡ some e
    → e.status ≡ OutboxStatus.published
    → lookup event t ≡ some e
unfolding modify lookup
if_processing-published f event id e [] p h k = h
if_processing-published f event id e ((i, d) ∷ t) p h k =
    ground (arith, p d, other_status (f d) e, if_processing-published f event id e t p)

-- The session is committed, nothing is published, and the provider is as it was.
pub record IsIdle {P : Type 0} (s t : Session P) : Type 0 where
  pub clean : IsClean t
  pub unpublished : IsUnpublished s.db t.db
  pub provider : t.provider ≡ s.provider

not_negative : (k : ℕ) → ltb_ℤ (pos k) (pos 0) ≡ false
not_negative k = ground arith

module _ {P : Type 0} where
  failed-IsIdle :
      (id : ℕ) (e : OutboxEvent) (x : Error) (n : ℕ) (s : Session P)
      → ((after_publish (err x) id e n s).0 ≡ ok n) × IsIdle s (after_publish (err x) id e n s).1
  unfolding after_publish unit_of_work on_db mark_failed ◌>>=◌ update raise_if
  failed-IsIdle id e x n s = rw (not_negative (backoff e.attempts)) (
    refl,
    record {
      clean = refl;
      unpublished = record {
        audited = refl;
        notified = refl;
        published = λ event d. if_processing-published _ event id d s.db.outbox_events (λ r. refl);
      };
      provider = refl;
    },
  )

  then-IsIdle : (s t u : Session P) → IsIdle s t → IsIdle t u → IsIdle s u
  then-IsIdle s t u h k = record {
    clean = k.clean;
    unpublished = then-IsUnpublished s.db t.db u.db h.unpublished k.unpublished;
    provider = k.provider ∙ h.provider;
  }

  process_event-IsIdle :
      (id : ℕ) (e : OutboxEvent) (n : ℕ) (s : Session P)
      → IsClean s
      → ((process_event id e n s).0 ≡ ok n) × IsIdle s (process_event id e n s).1
  unfolding process_event
  process_event-IsIdle id e n s same =
      let (x, raised) = unit_of_work-Raises (publish id e) s (publish-Raises id e) same in
      rw raised (failed-IsIdle id e x n s)

  process_all-IsIdle :
      (events : List (ℕ × OutboxEvent)) (n : ℕ) (s : Session P)
      → IsClean s
      → ((process_all events n s).0 ≡ ok n) × IsIdle s (process_all events n s).1
  unfolding process_all ◌>>=◌
  process_all-IsIdle [] n s same =
      (refl, record { clean = same; unpublished = same-IsUnpublished s.db; provider = refl })
  process_all-IsIdle ((id, e) ∷ events) n s same =
      go (process_event id e n s) (process_event-IsIdle id e n s same)
        (λ m t. process_all-IsIdle events m t)
    where
      go :
          (r : Result ℕ × Session P)
          → (r.0 ≡ ok n) × IsIdle s r.1
          → ((m : ℕ) (t : Session P)
              → IsClean t
              → ((process_all events m t).0 ≡ ok m) × IsIdle t (process_all events m t).1)
          → ((continue r.0 (λ m. process_all events m) r.1).0 ≡ ok n)
            × IsIdle s (continue r.0 (λ m. process_all events m) r.1).1
      go (ok m, t) (h, idle) rest =
          let k = rest m t idle.clean in (k.0 ∙ h, then-IsIdle s t _ idle k.1)
      go (err x, t) (h, idle) rest = absurd (cc)

  claim-IsIdle :
      (limit : ℕ) (s : Session P) → IsIdle s (unit_of_work (on_db (claim_batch limit)) s).1
  unfolding unit_of_work on_db claim_batch ◌>>=◌ update
  claim-IsIdle limit s = record {
    clean = refl;
    unpublished = record {
      audited = refl;
      notified = refl;
      published = λ event e. claim_rows-published event e s.db.now limit s.db.outbox_events;
    };
    provider = refl;
  }

  -- On a connection with nothing uncommitted, the worker returns zero, whatever events it claims: it
  -- writes no audit record and no notification, publishes no event, and leaves nothing uncommitted.
  pub process_once-IsIdle :
      (limit : ℕ) (s : Session P)
      → s.durable ≡ s.db
      → ((process_once limit s).0 ≡ ok 0) × IsIdle s (process_once limit s).1
  unfolding process_once unit_of_work on_db claim_batch ◌>>=◌ update
  process_once-IsIdle limit s same =
      let done =
        process_all-IsIdle (claim_rows s.db.now limit s.db.outbox_events).1 0
          (unit_of_work (on_db (claim_batch limit)) s).1 refl in
      (done.0, then-IsIdle s _ _ (claim-IsIdle limit s) done.1)
