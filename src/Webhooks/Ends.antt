-- ===== src/Webhooks/Ends.antt =====
-- A webhook keeps what its statements and the resolution of events keep, and has committed nothing
-- when it raises.
use agent_pay.Prelude.{ℕ, Text, Option, none, some, Bool}
use agent_pay.Prelude.Exec.Keeps.{Keeps, keeps_rules}
use agent_pay.Json.{Json}
use agent_pay.Lifecycle.{Accounts}
use agent_pay.ProviderEvents.{record_event}
use agent_pay.Resolution.{resolve, resolve_event}
use agent_pay.Store.{Db, session_rules, on_db-KeepsDb}
use agent_pay.Store.Nested.{Ends, Ends-of_KeepsDb, unit_of_work-Ends, bind-Ends, return-Ends}
use agent_pay.Webhooks.Reading.{Runtime, Event, outcome_of}
use agent_pay.Webhooks.{attach, ledger_accounts, conclude, act, after_record, handle_event}

module _ {P : Type 0} (I : Db → Type 0) (attached : (e o : ℕ) → Keeps I (attach e o))
    (accounts : (p : ℕ) (c : Option Text) → Keeps I (ledger_accounts p c))
    (resolved : (e o : ℕ) (x : Text) (r : Option Text) (to : Accounts)
      → Keeps I (resolve_event e o x r to)) where
  resolve-Ends :
      (e o : ℕ) (x : Text) (r : Option Text) (to : Accounts) → Ends {P = P} I (resolve e o x r to)
  unfolding resolve
  resolve-Ends e o x r to = unit_of_work-Ends _ (on_db-KeepsDb _ (resolved e o x r to))

  conclude-Ends :
      (id : ℕ) (e : Event) (x : Text) (c : Option Text) (r : Text)
      → Ends {P = P} I (conclude id e x c r)
  unfolding conclude
  conclude-Ends id e x c r =
      search (bind-Ends, return-Ends, resolve-Ends, session_rules, keeps_rules, attached, accounts)
        depth 16

  act-Ends :
      (id : ℕ) (e : Event) (o : Option Text) (c : Option Text) → Ends {P = P} I (act id e o c)
  unfolding act
  act-Ends id e none c = Ends-of_KeepsDb _ (search session_rules)
  act-Ends id e (some x) c = search (bind-Ends, conclude-Ends, session_rules) depth 9

  pub after_record-Ends :
      (o : Option ℕ) (e : Event) (c : Option Text) → Ends {P = P} I (after_record o e c)
  unfolding after_record
  after_record-Ends none e c = Ends-of_KeepsDb _ (search session_rules)
  after_record-Ends (some id) e c = act-Ends id e (outcome_of e.event_type) c

  module _ (runtime : Runtime)
      (recorded : (n i t : Text) (p : Json) (b : Bool)
        → Keeps I (record_event runtime.digest n i t p b)) where
    pub handled-Ends : (e : Event) (c : Option Text) → Ends {P = P} I (handle_event runtime e c)
    unfolding handle_event
    handled-Ends e c = search (bind-Ends, session_rules, recorded, after_record-Ends) depth 9
