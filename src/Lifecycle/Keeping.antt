-- ===== src/Lifecycle/Keeping.antt =====
-- Capture, void and refund under the units of work that call them.
use agent_pay.Prelude.{ℕ, ℤ, Text, Option, none, some}
use agent_pay.Prelude.Exec.Keeps.{Keeps, keeps_rules}
use agent_pay.Intact.{Intact, intact_rules}
use agent_pay.Lifecycle.{
  Accounts, insert_transaction, create_transaction, set_transaction, settle_capture, settle_void,
  settle_refund, capture, capture_new, void, void_new, repeated, refund_new, refund_or_replay,
  refund,
}
use agent_pay.Provider.{
  PaymentProvider, ProviderOutcome, ProviderOutcome.succeeded, ProviderOutcome.failed,
  ProviderOutcome.unknown,
}
use agent_pay.Store.{
  Transaction, TransactionStatus, OperationType, Status, Key, Spelled, KeepsDb, session_rules,
}

insert_transaction-Intact :
    (o : Option (ℕ × Transaction)) (p : ℕ) (t : OperationType) (s : TransactionStatus) (a : ℤ)
    (c : Text) (k : Key)
    → Keeps Intact (insert_transaction o p t s a c k)
unfolding insert_transaction
insert_transaction-Intact none p t s a c k = search (keeps_rules, intact_rules) depth 9
insert_transaction-Intact (some (id, e)) p t s a c k = search keeps_rules

create_transaction-Intact :
    (p : ℕ) (t : OperationType) (s : TransactionStatus) (a : ℤ) (c : Text) (k : Key)
    → Keeps Intact (create_transaction p t s a c k)
unfolding create_transaction
create_transaction-Intact p t s a c k = search (keeps_rules, insert_transaction-Intact) depth 9

set_transaction-Intact :
    (id : ℕ) (f : ℕ → Transaction → Transaction) → Keeps Intact (set_transaction id f)
unfolding set_transaction
set_transaction-Intact id f = search intact_rules depth 5

settle_capture-Intact :
    (o : ProviderOutcome) (p : ℕ) (a : ℤ) (c : Text) (to : Accounts)
    → Keeps Intact (settle_capture o p a c to)
unfolding settle_capture
settle_capture-Intact succeeded p a c to =
    search (keeps_rules, intact_rules, create_transaction-Intact) depth 12
settle_capture-Intact failed p a c to =
    search (keeps_rules, intact_rules, create_transaction-Intact) depth 12
settle_capture-Intact unknown p a c to = search (keeps_rules, intact_rules) depth 12

settle_void-Intact :
    (o : ProviderOutcome) (p : ℕ) (a : ℤ) (c : Text) → Keeps Intact (settle_void o p a c)
unfolding settle_void
settle_void-Intact succeeded p a c =
    search (keeps_rules, intact_rules, create_transaction-Intact) depth 12
settle_void-Intact failed p a c =
    search (keeps_rules, intact_rules, create_transaction-Intact) depth 12
settle_void-Intact unknown p a c = search (keeps_rules, intact_rules) depth 12

settle_refund-Intact :
    (o : ProviderOutcome) (p t : ℕ) (a : ℤ) (c : Text) (k : Key) (r : ℤ) (to : Accounts)
    → Keeps Intact (settle_refund o p t a c k r to)
unfolding settle_refund
settle_refund-Intact succeeded p t a c k r to =
    search (keeps_rules, intact_rules, set_transaction-Intact) depth 12
settle_refund-Intact failed p t a c k r to =
    search (keeps_rules, intact_rules, set_transaction-Intact) depth 12
settle_refund-Intact unknown p t a c k r to = search (keeps_rules, intact_rules) depth 12

module _ {P : Type 0} (provider : PaymentProvider P ℕ Key) where
  pub capture-keeps :
      (p : ℕ) (a : ℤ) (c : Text) (to : Accounts) → KeepsDb Intact (capture provider p a c to)
  unfolding capture capture_new repeated
  capture-keeps p a c to =
      search (session_rules, keeps_rules, intact_rules, settle_capture-Intact) depth 16

  pub void-keeps : (p : ℕ) (a : ℤ) (c : Text) → KeepsDb Intact (void provider p a c)
  unfolding void void_new repeated
  void-keeps p a c = search (session_rules, keeps_rules, intact_rules, settle_void-Intact) depth 16

  refund_new-keeps :
      (p : ℕ) (a : Spelled) (c : Text) (k : Key) (r : ℤ) (to : Accounts)
      → KeepsDb Intact (refund_new provider p a c k r to)
  unfolding refund_new
  refund_new-keeps p a c k r to =
      search
        (session_rules, keeps_rules, intact_rules, create_transaction-Intact, settle_refund-Intact)
        depth 16

  refund_or_replay-keeps :
      (o : Option Status) (p : ℕ) (a : Spelled) (c : Text) (k : Key) (r : ℤ) (to : Accounts)
      → KeepsDb Intact (refund_or_replay provider o p a c k r to)
  unfolding refund_or_replay
  refund_or_replay-keeps (some s) p a c k r to = search session_rules
  refund_or_replay-keeps none p a c k r to = refund_new-keeps p a c k r to

  pub refund-keeps :
      (p : ℕ) (a : Spelled) (c : Text) (to : Accounts) → KeepsDb Intact (refund provider p a c to)
  unfolding refund
  refund-keeps p a c to = search (session_rules, keeps_rules, refund_or_replay-keeps) depth 16
