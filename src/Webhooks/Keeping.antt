-- ===== src/Webhooks/Keeping.antt =====
-- Webhooks leave the books balanced and the budgets in agreement with their reservations.
use agent_pay.Prelude.{ℕ, Text, Option, none, some, Bool, Result, ok, err}
use agent_pay.Prelude.Exec.{continue, ◌>>=◌}
use agent_pay.Prelude.Exec.Keeps.{Keeps, keeps_rules}
use agent_pay.Intact.{Intact, intact_rules}
use agent_pay.Intact.Sessions.{Safe, Sound}
use agent_pay.Json.{Json}
use agent_pay.ProviderEvents.{insert_event, record_event}
use agent_pay.Resolution.Keeping.{resolve_event-Intact}
use agent_pay.Store.{ProviderEvent, Session, on_db, unit_of_work}
use agent_pay.Store.Nested.{unit_of_work-Ends-keeps}
use agent_pay.Webhooks.Ends.{handled-Ends}
use agent_pay.Webhooks.Reading.{Runtime, Delivery, Event, read_event}
use agent_pay.Webhooks.{attach, ledger_accounts, handle_event, provider_webhook}

attach-Intact : (e o : ℕ) → Keeps Intact (attach e o)
unfolding attach
attach-Intact e o = search intact_rules depth 5

ledger_accounts-Intact : (p : ℕ) (c : Option Text) → Keeps Intact (ledger_accounts p c)
unfolding ledger_accounts
ledger_accounts-Intact p c = search keeps_rules depth 9

insert_event-Intact :
    (o : Option (ℕ × ProviderEvent)) (e : ProviderEvent) → Keeps Intact (insert_event o e)
unfolding insert_event
insert_event-Intact (some x) e = search keeps_rules
insert_event-Intact none e = search (keeps_rules, intact_rules) depth 9

record_event-Intact :
    (digest : Json → Text) (n i t : Text) (p : Json) (b : Bool)
    → Keeps Intact (record_event digest n i t p b)
unfolding record_event
record_event-Intact digest n i t p b = search (keeps_rules, insert_event-Intact) depth 9

module _ {P : Type 0} (runtime : Runtime) where
  handled :
      (r : Result Event) (c : Option Text) (s : Session P)
      → Sound s
      → Sound (continue r (λ e. unit_of_work (handle_event runtime e c)) s).1
  handled (err x) c s h = h
  handled (ok e) c s h =
      unit_of_work-Ends-keeps Intact (handle_event runtime e c)
        (handled-Ends Intact attach-Intact ledger_accounts-Intact resolve_event-Intact runtime
          (record_event-Intact runtime.digest) e c)
        s h.0 h.1

  pub provider_webhook-Safe : (d : Delivery) → Safe {P = P} (provider_webhook runtime d)
  unfolding provider_webhook on_db ◌>>=◌
  provider_webhook-Safe d = record {
    at = λ s h. handled (read_event runtime d s.db.now) d.correlation_id s h;
  }
