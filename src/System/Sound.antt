-- ===== src/System/Sound.antt =====
-- No sequence of calls breaks the books or the budgets.
use agent_pay.Prelude.{ℕ, Text, Option, List, [], ◌∷◌}
use agent_pay.Prelude.Exec.Keeps.{Keeps, keeps_rules}
use agent_pay.Intact.{Intact, intact_rules}
use agent_pay.Intact.Sessions.{Safe, Sound, safe_rules, lift-Safe, unit_of_work-Safe}
use agent_pay.Lifecycle.Keeping.{capture-keeps, void-keeps, refund-keeps}
use agent_pay.Orchestrator.Finalize.{prepare-Intact}
use agent_pay.Outbox.{
  enqueue, claim_batch, mark_published, mark_failed, recover_rows, recover_stale,
}
use agent_pay.Outbox.Settled
use agent_pay.Outbox.Settled.{
  Call.enqueuing, Call.claiming, Call.publishing, Call.failing, Call.recovering,
}
use agent_pay.Approvals.{approve_payment, deny_payment}
use agent_pay.Approvals.Keeping.{admit-Intact, approve-Intact, deny_request-Intact}
use agent_pay.Auth.{Verifier}
use agent_pay.Control.{Binding}
use agent_pay.Provider.{PaymentProvider}
use agent_pay.Resolution.{resolve}
use agent_pay.Resolution.Keeping.{resolve_event-Intact}
use agent_pay.Lifecycle.{Accounts}
use agent_pay.Settlement.{Report, ingest}
use agent_pay.Settlement.Frame.{ingest_report-Intact}
use agent_pay.Store.{Db, Session, Key, session_rules, on_db-KeepsDb}
use agent_pay.System
use agent_pay.System.{
  after, after_all, Call.capturing, Call.voiding, Call.refunding, Call.preparing, Call.processing,
  Call.resolving, Call.settling, Call.waiting, Call.delivering, Call.reporting, Call.admitting,
  Call.approving, Call.denying, later,
}
use agent_pay.Webhooks.{provider_settlement}
use agent_pay.Webhooks.Keeping.{provider_webhook-Safe}
use agent_pay.Webhooks.Reading.{Runtime, Delivery}
use agent_pay.Worker.Keeping.{process_one-Safe}

outbox-Intact : (c : Settled.Call) → Keeps Intact (Settled.run c)
unfolding Settled.run enqueue claim_batch mark_published mark_failed recover_stale recover_rows
outbox-Intact (enqueuing t a c) = search (keeps_rules, intact_rules) depth 12
outbox-Intact (claiming n) = search (keeps_rules, intact_rules) depth 12
outbox-Intact (publishing id) = search (keeps_rules, intact_rules) depth 12
outbox-Intact (failing id s t) = search (keeps_rules, intact_rules) depth 12
outbox-Intact (recovering l m) = search (keeps_rules, intact_rules) depth 12

later-Intact : (n : ℕ) (db : Db) → Intact db → Intact (later n db)
later-Intact n db h = record {
  books = record { at_journal = h.books.at_journal };
  budgets = h.budgets;
}

resolve-Safe :
    {P : Type 0} (e o : ℕ) (x : Text) (r : Option Text) (to : Accounts)
    → Safe {P = P} (resolve e o x r to)
unfolding resolve
resolve-Safe e o x r to = search (safe_rules, session_rules, resolve_event-Intact) depth 9

ingest-Safe : {P : Type 0} (r : Report) → Safe {P = P} (ingest r)
unfolding ingest
ingest-Safe r = search (safe_rules, session_rules, ingest_report-Intact) depth 12

provider_settlement-Safe :
    {P : Type 0} (runtime : Runtime) (d : Delivery) → Safe {P = P} (provider_settlement runtime d)
unfolding provider_settlement
provider_settlement-Safe runtime d = search (safe_rules, lift-Safe, ingest-Safe) depth 5

module _ {P : Type 0} (verifier : Verifier) (digest : Binding → Text) where
  approve_payment-Safe :
      (a : ℕ) (r x c : Option Text) → Safe {P = P} (approve_payment verifier digest a r x c)
  unfolding approve_payment
  approve_payment-Safe a r x c =
      search (safe_rules, lift-Safe, session_rules, approve-Intact) depth 9

  deny_payment-Safe :
      (a : ℕ) (r x c : Option Text) → Safe {P = P} (deny_payment verifier digest a r x c)
  unfolding deny_payment
  deny_payment-Safe a r x c =
      search (safe_rules, lift-Safe, session_rules, deny_request-Intact) depth 9

module _ {P : Type 0} (runtime : Runtime) (verifier : Verifier) (digest : Binding → Text)
    (provider : PaymentProvider P ℕ Key) (reference_for : Option (Key → P → Option Text)) where
  after-Sound :
      (s : Session P) (c : System.Call)
      → Sound s
      → Sound (after runtime verifier digest provider reference_for s c)
  unfolding after
  after-Sound s (capturing p a c to) h =
      (unit_of_work-Safe _ (capture-keeps provider p a c to)).at s h
  after-Sound s (voiding p a c to) h = (unit_of_work-Safe _ (void-keeps provider p a c)).at s h
  after-Sound s (refunding p a c to) h =
      (unit_of_work-Safe _ (refund-keeps provider p a c to)).at s h
  after-Sound s (preparing p q b a c r) h =
      (unit_of_work-Safe _ (on_db-KeepsDb _ (prepare-Intact p q b a c r))).at s h
  after-Sound s (processing p to) h = (process_one-Safe provider reference_for p to).at s h
  after-Sound s (resolving e o x r to) h = (resolve-Safe e o x r to).at s h
  after-Sound s (settling r) h = (ingest-Safe r).at s h
  after-Sound s (delivering d) h = (provider_webhook-Safe runtime d).at s h
  after-Sound s (reporting d) h = (provider_settlement-Safe runtime d).at s h
  after-Sound s (admitting q b p c) h =
      (unit_of_work-Safe _ (on_db-KeepsDb _ (admit-Intact digest q b p c))).at s h
  after-Sound s (approving a r x c) h = (approve_payment-Safe verifier digest a r x c).at s h
  after-Sound s (denying a r x c) h = (deny_payment-Safe verifier digest a r x c).at s h
  after-Sound s (System.Call.publishing c) h =
      (unit_of_work-Safe _ (on_db-KeepsDb _ (outbox-Intact c))).at s h
  after-Sound s (waiting n) h = (later-Intact n s.durable h.0, later-Intact n s.db h.1)

  -- Whatever payments are admitted, approved, denied, prepared, executed, captured, voided and refunded, whatever provider events
  -- are delivered or resolved and settlements reported, in any order, whatever the provider answers and whichever
  -- calls raise: from a database where every journal balances and every budget agrees with its
  -- reservations and stays within its limit, the committed database is again such a database.
  pub after_all-Intact :
      (s : Session P) (cs : List System.Call)
      → Intact s.durable
      → Intact s.db
      → Intact (after_all runtime verifier digest provider reference_for s cs).durable
  unfolding after_all
  after_all-Intact s [] h i = h
  after_all-Intact s (c ∷ cs) h i =
      let r = after-Sound s c (h, i) in
      after_all-Intact (after runtime verifier digest provider reference_for s c) cs r.0 r.1
