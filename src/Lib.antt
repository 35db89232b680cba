-- ===== src/Lib.antt =====
-- Verification of agent-pay's reference implementation, a payment engine for agents in Python on
-- PostgreSQL (reference/implementation/src/agent_pay).
--
-- A payment request is checked against a spending policy and an authorization, an amount is reserved
-- in a budget, a worker calls the payment provider between two database transactions, and the outcome
-- settles the reservation, posts a transaction and a journal, and enqueues an event in the outbox.
-- Captures, voids and refunds follow the same pattern inside one transaction. Signed provider events
-- resolve payments whose outcome was unknown, and settlement reports are compared with payments.
--
-- The files, each below reference/implementation/src/agent_pay:
-- Domain: domain.py. Budget: budget.py, the in-memory budget. Provider: provider.py. Ledger: ledger.py,
-- the in-memory ledger; Journals: ledger.py, post_journal. Policy: policy.py. Service: service.py.
-- Authorization: authorization.py, and ensure_pending of approval.py. Store: the tables, the
-- idempotency keys, and unit_of_work.py. BudgetRepository, PaymentRepository: repositories.py.
-- Lifecycle: lifecycle.py. Orchestrator: orchestrator.py. Worker: worker.py. Outbox: outbox.py.
-- Settlement: settlement.py and reconciliation.py. Resolution: webhook_resolution.py. Webhooks:
-- webhooks.py; ProviderEvents: provider_events.py; Json: the values that they read. Router: router.py.
-- Instruments: instruments.py. Auth: auth.py. LifecycleApi: lifecycle_api.py. Control: control.py and
-- the binding of approval.py. Approvals: api.py, the decisions on approvals and the end of
-- create_payment. OutboxWorker: outbox_worker.py and the inserts of audit.py. WorkerRunner:
-- worker_runner.py and the query pending_for_execution of repositories.py. Intact is what all methods
-- keep true of the database; System puts their calls together. Samples holds the rows of the tests.
--
-- Conventions. A Decimal is an integer of ten-thousandths, the scale of the NUMERIC(20,4) columns;
-- that of a settlement report keeps its places until it is stored. A
-- text is a list of character codes, and case and blanks are those of ASCII. A UUID is a number, and
-- gen_random_uuid() gives the next one. Timestamps count seconds. A method on the database is a
-- function from a database to a result and a database (Prelude.Exec): an exception is a value, and
-- what was written before it stays written until the unit of work rolls it back. Rows keep the order
-- of their insertion, which is the order of created_at. Transactions on one row follow one another,
-- as FOR UPDATE makes them. An f-string that names an idempotency key is a constructor of Store.Keys
-- applied to its arguments. SQL's CHECK and UNIQUE constraints that a modelled statement can violate
-- are raises, and so are the statements that PostgreSQL refuses whatever the tables hold
-- (Store.Statements). All loops are structural recursions on tables and lists, so no fuel is needed.
--
-- A provider is a parameter: a state and four functions on it that return an outcome. So are the
-- environment, SHA-256 digests, HMAC, PyJWT, and json.loads, int, Decimal and datetime.fromisoformat
-- where they read what comes from outside (Webhooks.Reading); the amounts of LifecycleApi are parsed.
-- A timestamp of a settlement report that is neither a text nor null is refused when it is read.
--
-- Not modelled: foreign keys; the deadlocks, time-outs and connection errors of the database; the
-- reading of a policy's rules from JSON (from_rules), whose result the column holds; create_payment up
-- to the evaluation of the policy (validation, signed evidence, insertion), FastAPI's routing and
-- problem details; rails.py, simulator.py, which tests use, the digest of an audit record, and the
-- hashing, logging and connection code (atf_evidence.py, observability.py, db.py).
pub mod Prelude
pub mod Json
pub mod ProviderEvents
pub mod Domain
pub mod Budget
pub mod Provider
pub mod Ledger
pub mod Store
pub mod BudgetRepository
pub mod Journals
pub mod PaymentRepository
pub mod Intact
pub mod Lifecycle
pub mod Outbox
pub mod Orchestrator
pub mod Worker
pub mod Settlement
pub mod Resolution
pub mod Webhooks
pub mod Router
pub mod Instruments
pub mod Auth
pub mod LifecycleApi
pub mod Control
pub mod Approvals
pub mod OutboxWorker
pub mod WorkerRunner
pub mod Policy
pub mod Service
pub mod Authorization
mod Samples
pub mod System
