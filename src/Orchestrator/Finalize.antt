-- ===== src/Orchestrator/Finalize.antt =====
-- What `prepare` and `finalize` keep.
use agent_pay.Prelude.{ℕ, ℤ, Text, Option, none, some}
use agent_pay.Prelude.Exec.Keeps.{Keeps, keeps_rules}
use agent_pay.Intact.{Intact, intact_rules}
use agent_pay.Outbox.{enqueue}
use agent_pay.Lifecycle.{set_transaction}
use agent_pay.Provider.{
  ProviderOutcome, ProviderOutcome.succeeded, ProviderOutcome.failed, ProviderOutcome.unknown,
}
use agent_pay.Orchestrator.{
  Execution, start, prepare, update_charges, upsert_capture, conclude, finalize,
}
use agent_pay.Store.{Transaction, ProviderOperation, EventType}

pub enqueue-Intact : (e : EventType) (a : ℕ) (c : Option Text) → Keeps Intact (enqueue e a c)
unfolding enqueue
enqueue-Intact e a c = search (keeps_rules, intact_rules) depth 9

start-Intact : (o : Option ℕ) (p q : ℕ) (c : Option Text) → Keeps Intact (start o p q c)
unfolding start
start-Intact none p q c = search (keeps_rules, intact_rules, enqueue-Intact) depth 12
start-Intact (some r) p q c = search (keeps_rules, intact_rules, enqueue-Intact) depth 12

-- A returned `prepare` leaves every journal balanced and every budget in agreement with its
-- reservations.
pub prepare-Intact :
    (payment request budget : ℕ) (amount : ℤ) (currency : Text) (c : Option Text)
    → Keeps Intact (prepare payment request budget amount currency c)
unfolding prepare
prepare-Intact payment request budget amount currency c =
    search (keeps_rules, intact_rules, start-Intact) depth 16

update_charges-Intact :
    (p : ℕ) (f : ℕ → ProviderOperation → ProviderOperation) → Keeps Intact (update_charges p f)
unfolding update_charges
update_charges-Intact p f = search intact_rules depth 5

upsert_capture-Intact :
    (o : Option (ℕ × Transaction)) (p : ℕ) (a : ℤ) (c : Text)
    → Keeps Intact (upsert_capture o p a c)
unfolding upsert_capture set_transaction
upsert_capture-Intact none p a c = search (keeps_rules, intact_rules) depth 9
upsert_capture-Intact (some (id, t)) p a c = search (keeps_rules, intact_rules) depth 9

conclude-Intact :
    (o : ProviderOutcome) (x : Execution) (r : Option Text) → Keeps Intact (conclude o x r)
unfolding conclude
conclude-Intact unknown x r =
    search (keeps_rules, intact_rules, enqueue-Intact, update_charges-Intact) depth 16
conclude-Intact failed x r =
    search (keeps_rules, intact_rules, enqueue-Intact, update_charges-Intact) depth 16
conclude-Intact succeeded x r =
    search (keeps_rules, intact_rules, enqueue-Intact, update_charges-Intact, upsert_capture-Intact)
      depth 20

-- A returned `finalize` leaves every journal balanced and every budget in agreement with its
-- reservations, whatever the outcome.
pub finalize-Intact :
    (x : Execution) (o : ProviderOutcome) (r : Option Text) → Keeps Intact (finalize x o r)
unfolding finalize
finalize-Intact x o r = search (keeps_rules, intact_rules, conclude-Intact) depth 16
