-- ===== src/Webhooks/Once.antt =====
-- A provider event acts once, however often it is delivered.
use agent_pay.Prelude.{
  ℕ, Text, Option, none, Bool, true, Result, ok, err, Error, List, [], ◌∷◌, ◌≡◌, refl, sym, ◌∙◌, ap,
  arith, find_row, find_row-append_row, Option-cases, inl, inr, beq_refl, List_eq, ℕ_eq,
}
use agent_pay.Prelude.Exec.{continue, update, ◌>>=◌}
use agent_pay.Prelude.Exec.Keeps.{Keeps, keeps_rules, bind-Ensures, OnReturn}
use agent_pay.Json.{Json}
use agent_pay.ProviderEvents.{is_event, insert_event, new_event, record_event}
use agent_pay.ProviderEvents.Seen.{Seen, modify-Seen, record_event-Seen, resolve_event-Seen}
use agent_pay.Store.{Db, Session, on_db, unit_of_work, finish, fresh_id}
use agent_pay.Store.Nested.{
  Ends, unit_of_work-Ends-keeps, unit_of_work-Ends-rollback, unit_of_work-committed,
}
use agent_pay.Store.Returns.{on_db-Ensures}
use agent_pay.Webhooks.Reading.{Runtime, Delivery, Event, read_event}
use agent_pay.Webhooks.Ends.{after_record-Ends, handled-Ends}
use agent_pay.Webhooks.{
  Response, duplicate, attach, ledger_accounts, after_record, handle_event, provider_webhook,
}

module _ (n i : Text) where
  attach-Seen : (e o : ℕ) → Keeps (Seen n i) (attach e o)
  unfolding attach
  attach-Seen e o = modify-Seen n i e _ (λ n e. refl) (λ n e. refl)

  ledger_accounts-Seen : (p : ℕ) (c : Option Text) → Keeps (Seen n i) (ledger_accounts p c)
  unfolding ledger_accounts
  ledger_accounts-Seen p c = search keeps_rules depth 9

module _ (digest : Json → Text) (n i t : Text) (p : Json) (b : Bool) where
  -- An event that is not there yet is there afterwards.
  record_event-records : (db : Db) → OnReturn (Seen n i) (record_event digest n i t p b db)
  unfolding record_event insert_event fresh_id ◌>>=◌ update
  record_event-records db = elim (Option-cases (find_row (is_event n i) db.provider_events)) [
    | inl new ↦
        rw (new, insert_event)
          (ground (
            arith,
            new,
            beq_refl n,
            beq_refl i,
            find_row-append_row (is_event n i) db.next_id (new_event digest n i t p b)
                db.provider_events,
          ))
    | inr (row, old) ↦ rw (old, insert_event) (rw old)
  ]

  record_event-again : (db : Db) → Seen n i db → record_event digest n i t p b db ≡ (ok none, db)
  unfolding record_event insert_event ◌>>=◌
  record_event-again db h = elim (Option-cases (find_row (is_event n i) db.provider_events)) [
    | inl new ↦ absurd (ground arith)
    | inr (row, old) ↦ rw (old, insert_event)
  ]

module _ {P : Type 0} (runtime : Runtime) where
  handle_event-Ends :
      (n i : Text) (e : Event) (c : Option Text)
      → Ends {P = P} (Seen n i) (handle_event runtime e c)
  handle_event-Ends n i =
      handled-Ends (Seen n i) (attach-Seen n i) (ledger_accounts-Seen n i) (resolve_event-Seen n i)
        runtime (record_event-Seen n i runtime.digest)

  handle_event-records :
      (e : Event) (c : Option Text) (s : Session P)
      → OnReturn
          (λ (t : Session P). Seen e.provider_name e.event_id t.db)
          (handle_event runtime e c s)
  unfolding handle_event
  handle_event-records e c s =
      bind-Ensures (λ o t. Seen e.provider_name e.event_id t.db) _ _ _ s
        (on_db-Ensures (λ o db. Seen e.provider_name e.event_id db) _ s
          (record_event-records runtime.digest e.provider_name e.event_id e.event_type e.payload
            true s.db))
        (λ o t h.
          (after_record-Ends (Seen e.provider_name e.event_id)
              (attach-Seen e.provider_name e.event_id)
              (ledger_accounts-Seen e.provider_name e.event_id)
              (resolve_event-Seen e.provider_name e.event_id) o e c).at
            t h)

  handle_event-again :
      (e : Event) (c : Option Text) (s : Session P)
      → Seen e.provider_name e.event_id s.db
      → handle_event runtime e c s ≡ (ok (duplicate e.event_id), s)
  unfolding handle_event on_db ◌>>=◌ after_record
  handle_event-again e c s h = rw (
      record_event-again runtime.digest e.provider_name e.event_id e.event_type e.payload true s.db
        h)

-- The event is recorded, and others see what the connection sees.
pub record IsRecorded {P : Type 0} (n i : Text) (s : Session P) : Type 0 where
  pub for_others : Seen n i s.durable
  pub here : Seen n i s.db
  pub committed : s.durable ≡ s.db

module _ {P : Type 0} (runtime : Runtime) where
  -- Deliveries one after the other, returned or raised.
  unfoldable pub deliver_all : Session P → List Delivery → Session P
  deliver_all s [] = s
  deliver_all s (d ∷ ds) = deliver_all (provider_webhook runtime d s).1 ds

  handled-IsRecorded :
      (n i : Text) (r : Result Event) (c : Option Text) (s : Session P)
      → IsRecorded n i s
      → IsRecorded n i (continue r (λ e. unit_of_work (handle_event runtime e c)) s).1
  handled-IsRecorded n i (err x) c s h = h
  handled-IsRecorded n i (ok e) c s h =
      let k =
        unit_of_work-Ends-keeps (Seen n i) (handle_event runtime e c)
          (handle_event-Ends runtime n i e c) s h.for_others h.here in
      record {
        for_others = k.0;
        here = k.1;
        committed = unit_of_work-committed (handle_event runtime e c) s;
      }

  deliver_all-IsRecorded :
      (n i : Text) (ds : List Delivery) (s : Session P)
      → IsRecorded n i s
      → IsRecorded n i (deliver_all s ds)
  unfolding deliver_all provider_webhook on_db ◌>>=◌
  deliver_all-IsRecorded n i [] s h = h
  deliver_all-IsRecorded n i (d ∷ ds) s h =
      deliver_all-IsRecorded n i ds _
        (handled-IsRecorded n i (read_event runtime d s.db.now) d.correlation_id s h)

  committed_once :
      (n i : Text) (r : Result Response × Session P)
      → OnReturn (λ (t : Session P). Seen n i t.db) r
      → OnReturn (λ (t : Session P). IsRecorded n i t) (finish r.0 r.1)
  committed_once n i (ok a, t) h = record { for_others = h; here = h; committed = refl }
  committed_once n i (err x, t) h = tt

  -- A delivery that returns leaves its event recorded.
  webhook-records :
      (d : Delivery) (e : Event) (s : Session P)
      → read_event runtime d s.db.now ≡ ok e
      → OnReturn
          (λ (t : Session P). IsRecorded e.provider_name e.event_id t)
          (provider_webhook runtime d s)
  unfolding provider_webhook on_db ◌>>=◌ unit_of_work
  webhook-records d e s h = rw h (
      committed_once e.provider_name e.event_id (handle_event runtime e d.correlation_id s)
        (handle_event-records runtime e d.correlation_id s))

  webhook-again :
      (d : Delivery) (e : Event) (s : Session P)
      → read_event runtime d s.db.now ≡ ok e
      → IsRecorded e.provider_name e.event_id s
      → provider_webhook runtime d s ≡ (ok (duplicate e.event_id), s)
  unfolding provider_webhook on_db ◌>>=◌ unit_of_work
  webhook-again d e s h k =
      rw (h, continue)
        (rw (handle_event-again runtime e d.correlation_id s k.here)
          (λ j. (ok (duplicate e.event_id), record s { durable = sym k.committed j })))

  -- When a delivery has returned, its event has acted for the last time: whatever is delivered since,
  -- each later delivery of that event, with whatever content, is answered as a duplicate and changes
  -- neither the database nor the provider.
  pub provider_webhook-once :
      (d : Delivery) (e : Event) (s : Session P) (r : Response)
      → read_event runtime d s.db.now ≡ ok e
      → (provider_webhook runtime d s).0 ≡ ok r
      → (ds : List Delivery) (d' : Delivery) (e' : Event)
      → let t = deliver_all (provider_webhook runtime d s).1 ds in
        read_event runtime d' t.db.now ≡ ok e'
        → e'.provider_name ≡ e.provider_name
        → e'.event_id ≡ e.event_id
        → provider_webhook runtime d' t ≡ (ok (duplicate e.event_id), t)
  provider_webhook-once d e s r h returned ds d' e' h' n i =
      let recorded = of_return (provider_webhook runtime d s) returned (webhook-records d e s h) in
      let later = deliver_all-IsRecorded e.provider_name e.event_id ds _ recorded in
      webhook-again d' e' _ h' (rw (n, i) later)
      ∙ ap (λ (x : Text). (ok (duplicate x), deliver_all (provider_webhook runtime d s).1 ds)) i
    where
      of_return :
          (x : Result Response × Session P)
          → x.0 ≡ ok r
          → OnReturn (λ (t : Session P). IsRecorded e.provider_name e.event_id t) x
          → IsRecorded e.provider_name e.event_id x.1
      of_return (ok a, t) q k = k
      of_return (err y, t) q k = absurd (cc)

  -- A delivery that raises leaves the database as it was, also where the event was already resolved
  -- inside.
  webhook-rollback :
      (r : Result Event) (c : Option Text) (s : Session P) (x : Error)
      → s.durable ≡ s.db
      → (continue r (λ e. unit_of_work (handle_event runtime e c)) s).0 ≡ err x
      → let t = (continue r (λ e. unit_of_work (handle_event runtime e c)) s).1 in
        (t.durable ≡ s.durable) × (t.db ≡ s.durable)
  webhook-rollback (err y) c s x same h = (refl, sym same)
  webhook-rollback (ok e) c s x same h =
      unit_of_work-Ends-rollback (Seen [] []) (handle_event runtime e c) s x
        (handle_event-Ends runtime [] [] e c) h

  -- On a connection with nothing uncommitted, a delivery that raises, at whatever step, leaves the
  -- database as it was before.
  pub provider_webhook-rollback :
      (d : Delivery) (s : Session P) (x : Error)
      → s.durable ≡ s.db
      → (provider_webhook runtime d s).0 ≡ err x
      → let t = (provider_webhook runtime d s).1 in (t.durable ≡ s.durable) × (t.db ≡ s.durable)
  unfolding provider_webhook on_db ◌>>=◌
  provider_webhook-rollback d s x same h =
      webhook-rollback (read_event runtime d s.db.now) d.correlation_id s x same h
