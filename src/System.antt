-- ===== src/System.antt =====
-- The program's calls together: the payment lifecycle, the orchestrator, the worker, the resolver of
-- provider events, the settlement workflow, the provider's webhooks, the approvals and the outbox, on one database and one provider.
-- Row locks make concurrent transactions on a payment, an event or a budget such a sequence.
pub mod Sound
mod Tests
use agent_pay.Prelude.{ℕ, ◌+◌, ℤ, Text, Option, none, some, List, [], ◌∷◌}
use agent_pay.Approvals.{admit, approve_payment, deny_payment}
use agent_pay.Auth.{Verifier}
use agent_pay.Control.{Binding, Question}
use agent_pay.Provider.{PaymentProvider}
use agent_pay.Lifecycle.{Accounts, capture, void, refund}
use agent_pay.Orchestrator.{prepare}
use agent_pay.Worker.{process_one}
use agent_pay.Resolution.{resolve}
use agent_pay.Settlement.{Report, ingest}
use agent_pay.Outbox.Settled
use agent_pay.Webhooks.{provider_webhook, provider_settlement}
use agent_pay.Webhooks.Reading.{Runtime, Delivery}
use agent_pay.Store.{Db, Key, Spelled, Session, on_db, unit_of_work}

pub data Call : Type 0 where
  capturing voiding : ℕ → ℤ → Text → Accounts → Call
  refunding : ℕ → Spelled → Text → Accounts → Call
  preparing : ℕ → ℕ → ℕ → ℤ → Text → Option Text → Call
  processing : ℕ → Accounts → Call
  resolving : ℕ → ℕ → Text → Option Text → Accounts → Call
  settling : Report → Call
  -- a provider's webhook, and its settlement report
  delivering reporting : Delivery → Call
  -- a payment that is inserted goes to its policy and its budget
  admitting : Question → Option ℕ → ℕ → Option Text → Call
  -- an approval is approved or denied
  approving denying : ℕ → Option Text → Option Text → Option Text → Call
  publishing : Settled.Call → Call
  -- seconds that pass before the next call
  waiting : ℕ → Call

abbrev pub later : ℕ → Db → Db
later n db = record db { now = db.now + n }

module _ {P : Type 0} (runtime : Runtime) (verifier : Verifier) (digest : Binding → Text)
    (provider : PaymentProvider P ℕ Key) (reference_for : Option (Key → P → Option Text)) where
  -- What a call leaves, returned or raised.
  unfoldable pub after : Session P → Call → Session P
  after s (capturing p a c to) = (unit_of_work (capture provider p a c to) s).1
  after s (voiding p a c to) = (unit_of_work (void provider p a c) s).1
  after s (refunding p a c to) = (unit_of_work (refund provider p a c to) s).1
  after s (preparing p q b a c r) = (unit_of_work (on_db (prepare p q b a c r)) s).1
  after s (processing p to) = (process_one provider reference_for p to s).1
  after s (resolving e o x r to) = (resolve e o x r to s).1
  after s (settling r) = (ingest r s).1
  after s (delivering d) = (provider_webhook runtime d s).1
  after s (reporting d) = (provider_settlement runtime d s).1
  after s (admitting q b p c) = (unit_of_work (on_db (admit digest q b p c)) s).1
  after s (approving a r h c) = (approve_payment verifier digest a r h c s).1
  after s (denying a r h c) = (deny_payment verifier digest a r h c s).1
  after s (publishing c) = (unit_of_work (on_db (Settled.run c)) s).1
  after s (waiting n) = record s { durable = later n s.durable; db = later n s.db }

  unfoldable pub after_all : Session P → List Call → Session P
  after_all s [] = s
  after_all s (c ∷ cs) = after_all (after s c) cs
