-- ===== src/Approvals/Keeping.antt =====
-- Decisions on approvals and the admission of payments keep the books and the budgets.
use agent_pay.Prelude.{ℕ, ℤ, Text, Option, none, some}
use agent_pay.Prelude.Exec.Keeps.{Keeps, keeps_rules}
use agent_pay.Approvals.{
  approve_request, expire, approve, deny_request, proceed, notify, with_budget, reject, admit,
}
use agent_pay.Control.{
  Binding, PolicyRow, Question, Answer, judge, evaluate_policy, bind_budget, create_approval,
  set_approval, payment_request, approval_binding_digest,
}
use agent_pay.Domain.{
  Decision, Decision.deny, Decision.require_approval, Decision.allow_auto, Decision.allow_notify,
}
use agent_pay.Intact.{Intact, intact_rules}
use agent_pay.Orchestrator.Finalize.{enqueue-Intact, prepare-Intact}
use agent_pay.Store.{Approval, ApprovalStatus, for_update}

set_approval-Intact :
    (id : ℕ) (s : ApprovalStatus) (a : Text) (r : Option Text)
    → Keeps Intact (set_approval id s a r)
unfolding set_approval
set_approval-Intact id s a r = search intact_rules depth 5

bind_budget-Intact : (q b : ℕ) → Keeps Intact (bind_budget q b)
unfolding bind_budget
bind_budget-Intact q b = search intact_rules depth 5

judge-Intact : (o : Option PolicyRow) (q : Question) → Keeps Intact (judge o q)
unfolding judge
judge-Intact none q = search keeps_rules
judge-Intact (some row) q = search (keeps_rules, intact_rules) depth 9

evaluate_policy-Intact : (q : Question) → Keeps Intact (evaluate_policy q)
unfolding evaluate_policy
evaluate_policy-Intact q = search (keeps_rules, judge-Intact) depth 9

payment_request-Intact : (q : ℕ) → Keeps Intact (payment_request q)
unfolding payment_request for_update
payment_request-Intact q = search keeps_rules

pub deny_request-Intact :
    (id : ℕ) (a : Text) (r c : Option Text) → Keeps Intact (deny_request id a r c)
unfolding deny_request
deny_request-Intact id a r c =
    search (keeps_rules, intact_rules, payment_request-Intact, set_approval-Intact, enqueue-Intact)
      depth 16

reject-Intact : (a : Answer) (p : ℕ) (c : Option Text) → Keeps Intact (reject a p c)
unfolding reject
reject-Intact a p c = search (keeps_rules, intact_rules, enqueue-Intact) depth 12

notify-Intact : (q : Question) (p : ℕ) (c : Option Text) → Keeps Intact (notify q p c)
unfolding notify
notify-Intact q p c = search (keeps_rules, enqueue-Intact) depth 9

module _ (digest : Binding → Text) where
  approval_binding_digest-Intact : (q : ℕ) → Keeps Intact (approval_binding_digest digest q)
  unfolding approval_binding_digest
  approval_binding_digest-Intact q = search (keeps_rules, payment_request-Intact) depth 12

  approve_request-Intact :
      (id : ℕ) (row : Approval) (a : Text) (r c : Option Text)
      → Keeps Intact (approve_request digest id row a r c)
  unfolding approve_request
  approve_request-Intact id row a r c =
      search
        (
          keeps_rules, payment_request-Intact, approval_binding_digest-Intact, set_approval-Intact,
          prepare-Intact, enqueue-Intact,
        )
        depth 24

  expire-Intact : (id : ℕ) (a : Text) → Keeps Intact (expire digest id a)
  unfolding expire
  expire-Intact id a = search (keeps_rules, set_approval-Intact) depth 9

  pub approve-Intact :
      (id : ℕ) (a : Text) (r c : Option Text) → Keeps Intact (approve digest id a r c)
  unfolding approve
  approve-Intact id a r c = search (keeps_rules, expire-Intact, approve_request-Intact) depth 16

  create_approval-Intact :
      (q : ℕ) (r : Option Text) (m : ℤ) → Keeps Intact (create_approval digest q r m)
  unfolding create_approval
  create_approval-Intact q r m = search (keeps_rules, intact_rules) depth 16

  proceed-Intact :
      (d : Decision) (q : Question) (p b : ℕ) (c : Option Text)
      → Keeps Intact (proceed digest d q p b c)
  unfolding proceed
  proceed-Intact require_approval q p b c =
      search (keeps_rules, intact_rules, create_approval-Intact, enqueue-Intact) depth 12
  proceed-Intact deny q p b c = search (keeps_rules, prepare-Intact, notify-Intact) depth 12
  proceed-Intact allow_auto q p b c = search (keeps_rules, prepare-Intact, notify-Intact) depth 12
  proceed-Intact allow_notify q p b c = search (keeps_rules, prepare-Intact, notify-Intact) depth 12

  with_budget-Intact :
      (o : Option ℕ) (a : Answer) (q : Question) (p : ℕ) (c : Option Text)
      → Keeps Intact (with_budget digest o a q p c)
  unfolding with_budget
  with_budget-Intact none a q p c = search (keeps_rules, intact_rules, enqueue-Intact) depth 12
  with_budget-Intact (some b) a q p c =
      search (keeps_rules, bind_budget-Intact, proceed-Intact) depth 9

  pub admit-Intact :
      (q : Question) (b : Option ℕ) (p : ℕ) (c : Option Text) → Keeps Intact (admit digest q b p c)
  unfolding admit
  admit-Intact q b p c =
      search (keeps_rules, evaluate_policy-Intact, reject-Intact, with_budget-Intact) depth 12
