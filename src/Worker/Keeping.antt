-- ===== src/Worker/Keeping.antt =====
-- `process_one` from its first unit of work to its last.
use agent_pay.Prelude.{ℕ, Text, Option, none, some}
use agent_pay.Prelude.Exec.Keeps.{Keeps, keeps_rules}
use agent_pay.Intact.{Intact, intact_rules}
use agent_pay.Intact.Sessions.{
  Safe, unit_of_work-Safe, bind-Safe, gets-Safe, on_provider-Safe, pure-Safe,
}
use agent_pay.Orchestrator.{Execution}
use agent_pay.Orchestrator.Finalize.{finalize-Intact}
use agent_pay.Lifecycle.{Accounts}
use agent_pay.Provider.{PaymentProvider, ProviderOutcome}
use agent_pay.Worker.{begin, outcome_of, process_one}
use agent_pay.Store.{Key, session_rules}

begin-Intact : (p : ℕ) (to : Accounts) → Keeps Intact (begin p to)
unfolding begin
begin-Intact p to = search (keeps_rules, intact_rules) depth 16

module _ {P : Type 0} (provider : PaymentProvider P ℕ Key)
    (reference_for : Option (Key → P → Option Text)) where
  outcome_of-Safe :
      (o : Option (ProviderOutcome × Option Text)) (x : Execution)
      → Safe (outcome_of provider reference_for o x)
  unfolding outcome_of
  outcome_of-Safe (some out) x = pure-Safe out
  outcome_of-Safe none x = search (bind-Safe, on_provider-Safe, pure-Safe) depth 9

  pub process_one-Safe : (p : ℕ) (to : Accounts) → Safe (process_one provider reference_for p to)
  unfolding process_one
  process_one-Safe p to =
      search
        (
          bind-Safe, unit_of_work-Safe, gets-Safe, outcome_of-Safe, session_rules, begin-Intact,
          finalize-Intact,
        )
        depth 16
