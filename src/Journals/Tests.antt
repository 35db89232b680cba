-- ===== src/Journals/Tests.antt =====
-- Instances for the journals of the database.
use agent_pay.Prelude.{ℕ, pos, codes, none, List, [], ◌∷◌, ◌≡◌, refl, ok}
use agent_pay.Prelude.Exec.Keeps.{Ensures, OnReturn}
use agent_pay.Journals.{Draft, post_journal}
use agent_pay.Journals.Trial.{IsBalanced, post_journal-balances}
use agent_pay.Journals.Idempotency.{post_journal-twice}
use agent_pay.Store.{Db, Journal, ReferenceType, Side, plain, KeyKind}

abbrev sale : Journal
sale = record {
  currency = codes "USD";
  reference_type = ReferenceType.transaction;
  reference_id = 1;
  idempotency_key = plain KeyKind.payment_capture 1;
  correlation_id = none;
}

abbrev draft : ℕ → Side → Draft
draft account side = record {
  ledger_account_id = account;
  side = side;
  amount = pos 5;
  currency = codes "USD";
}

abbrev drafts : List Draft
drafts = draft 51 Side.debit ∷ draft 52 Side.credit ∷ []

abbrev empty : Db
empty = record {
  now = 0;
  next_id = 10;
  payments = [];
  payment_requests = [];
  authorization_evidence = [];
  budgets = [];
  budget_reservations = [];
  provider_operations = [];
  transactions = [];
  ledger_journals = [];
  ledger_postings = [];
  provider_events = [];
  settlements = [];
  reconciliation_records = [];
  outbox_events = [];
  wallets = [];
  ledger_accounts = [];
  payment_provider_accounts = [];
  policies = [];
  policy_versions = [];
  approvals = [];
  merchants = [];
  audit_events = [];
  notifications = [];
}

post_journal-balances_example : OnReturn IsBalanced (post_journal sale drafts empty)
post_journal-balances_example =
    post_journal-balances sale drafts empty (record { at_journal = λ j. refl })

post_journal-twice_example :
    Ensures (λ id s. post_journal sale drafts s ≡ (ok id, s)) (post_journal sale drafts empty)
post_journal-twice_example = post_journal-twice sale drafts empty
