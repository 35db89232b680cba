-- ===== src/Resolution/Keeping.antt =====
-- What the resolution of a provider event keeps.
use agent_pay.Prelude.{ℕ, ℤ, Text, Option, none, some}
use agent_pay.Prelude.Exec.Keeps.{Keeps, keeps_rules}
use agent_pay.Intact.{Intact, intact_rules}
use agent_pay.Lifecycle.{Accounts, set_transaction}
use agent_pay.Resolution.{
  Target, mark_processed, end_operation, end_payment, insert_capture, settle_charge, release_any,
  succeed, fail, apply, resolve_event,
}
use agent_pay.Store.{ProcessingStatus_eq, Transaction}

insert_capture-Intact :
    (o : Option (ℕ × Transaction)) (p : ℕ) (a : ℤ) (c : Text) (r : Option Text)
    → Keeps Intact (insert_capture o p a c r)
unfolding insert_capture
insert_capture-Intact none p a c r = search (keeps_rules, intact_rules) depth 9
insert_capture-Intact (some (id, t)) p a c r = search keeps_rules

settle_charge-Intact :
    (t : Target) (r : Option Text) (to : Accounts) → Keeps Intact (settle_charge t r to)
unfolding settle_charge set_transaction
settle_charge-Intact t r to = search (keeps_rules, intact_rules, insert_capture-Intact) depth 16

release_any-Intact : (o : Option ℕ) → Keeps Intact (release_any o)
unfolding release_any
release_any-Intact none = search keeps_rules
release_any-Intact (some r) = search intact_rules

succeed-Intact :
    (id : ℕ) (t : Target) (r : Option Text) (to : Accounts) → Keeps Intact (succeed id t r to)
unfolding succeed end_operation end_payment
succeed-Intact id t r to = search (keeps_rules, intact_rules, settle_charge-Intact) depth 12

fail-Intact : (id : ℕ) (t : Target) (r : Option Text) → Keeps Intact (fail id t r)
unfolding fail end_operation end_payment
fail-Intact id t r = search (keeps_rules, intact_rules, release_any-Intact) depth 12

apply-Intact :
    (e id : ℕ) (t : Target) (x : Text) (r : Option Text) (to : Accounts)
    → Keeps Intact (apply e id t x r to)
unfolding apply mark_processed
apply-Intact e id t x r to =
    search (keeps_rules, intact_rules, succeed-Intact, fail-Intact) depth 16

-- A resolved event leaves every journal balanced and every budget in agreement with its
-- reservations, whatever the provider reports.
pub resolve_event-Intact :
    (e id : ℕ) (x : Text) (r : Option Text) (to : Accounts)
    → Keeps Intact (resolve_event e id x r to)
unfolding resolve_event
resolve_event-Intact e id x r to = search (keeps_rules, intact_rules, apply-Intact) depth 16
