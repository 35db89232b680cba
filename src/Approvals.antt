-- ===== src/Approvals.antt =====
-- reference/implementation/src/agent_pay/api.py: the decisions on approvals, and what the creation of
-- a payment does with the policy's decision.
pub mod Admitted
pub mod Keeping
pub mod Once
mod Tests
use agent_pay.Prelude.{
  ℕ, leb, ℤ, pos, Text, codes, strip, upper, Eq, ◌==◌, List_eq, list_eq, ℕ_eq, Bool, true, false,
  not, ◌&&◌, Option, none, some, lookup, Result, ok, err, Error,
}
use agent_pay.Prelude.Errors.{Error.http_error, Error.runtime_error}
use agent_pay.Prelude.Exec.{Exec, pure, raise, gets, lift, or_raise, choose, ◌>>=◌, ◌>>◌, raise_if}
use agent_pay.Auth.{Verifier, resolve_approval_bearer}
use agent_pay.Control.{
  Binding, approval_binding_digest, set_approval, RequestRow, payment_request, Question, Answer,
  evaluate_policy, select_budget, bind_budget, create_approval,
}
use agent_pay.Domain.{Decision, Decision.deny, Decision.require_approval, Decision.allow_notify}
use agent_pay.LifecycleApi.{bearer, refused}
use agent_pay.Orchestrator.{prepare}
use agent_pay.Outbox.{enqueue}
use agent_pay.PaymentRepository.{update_status}
use agent_pay.Store.{
  Db, Approval, ApprovalStatus, ApprovalStatus_eq, Status, Status_eq, EventType, Session, on_db,
  unit_of_work,
}

-- now >= expires_at
abbrev pub is_over : ℕ → Option ℕ → Bool
is_over now none = false
is_over now (some at) = leb at now

-- intent_digest == digest
abbrev pub is_bound_to : Option Text → Text → Bool
is_bound_to none digest = false
is_bound_to (some d) digest = d == digest

module _ (digest : Binding → Text) where
  -- The approval of a payment, after the checks of the approval itself.
  unfoldable pub approve_request : ℕ → Approval → Text → Option Text → Option Text → Exec Db ℕ
  approve_request approval row actor reason correlation = do
    found ← payment_request row.payment_request_id
    req ← or_raise found (http_error 404 "payment request not found")
    raise_if (not (req.status == Status.approval_required))
        (http_error 409 "payment is not awaiting approval")
    budget ← or_raise req.request.budget_id (http_error 409 "payment has no bound budget")
    current ← approval_binding_digest digest row.payment_request_id
    raise_if (not (is_bound_to row.intent_digest current))
        (http_error 409 "approval binding no longer matches payment intent")
    set_approval approval ApprovalStatus.approved actor reason
    _ ←
        prepare req.payment_id row.payment_request_id budget req.request.amount
          (upper (strip req.request.currency)) correlation
    _ ← enqueue (EventType.payment_approved approval actor) req.payment_id correlation
    pure req.payment_id

  -- An approval whose time is over.
  unfoldable pub expire : ℕ → Text → Exec Db ℕ
  expire approval actor = do
    set_approval approval ApprovalStatus.expired actor (some (codes "approval expired"))
    raise (http_error 409 "approval has expired")

  -- The unit of work of `approve_payment`.
  unfoldable pub approve : ℕ → Text → Option Text → Option Text → Exec Db ℕ
  approve approval actor reason correlation = do
    found ← gets (λ db. lookup approval db.approvals)
    row ← or_raise found (http_error 404 "approval not found")
    raise_if (not (row.status == ApprovalStatus.pending))
        (http_error 409 "approval is no longer pending")
    over ← gets (λ db. is_over db.now row.expires_at)
    choose over (expire approval actor) (approve_request approval row actor reason correlation)

-- The unit of work of `deny_payment`. A payment request that is missing is `None`, which has no items.
unfoldable pub deny_request : ℕ → Text → Option Text → Option Text → Exec Db ℕ
deny_request approval actor reason correlation = do
  found ← gets (λ db. lookup approval db.approvals)
  row ← or_raise found (http_error 404 "approval not found")
  raise_if (not (row.status == ApprovalStatus.pending))
      (http_error 409 "approval is no longer pending")
  there ← payment_request row.payment_request_id
  set_approval approval ApprovalStatus.denied actor reason
  req ← or_raise there (runtime_error "'NoneType' object is not subscriptable")
  update_status req.payment_id Status.failed none
  _ ← enqueue (EventType.user_denied approval) req.payment_id correlation
  pure req.payment_id

module _ {P : Type 0} (verifier : Verifier) (digest : Binding → Text) where
  -- `approve_payment`
  unfoldable pub approve_payment : ℕ → Option Text → Option Text → Option Text → Exec (Session P) ℕ
  approve_payment approval reason authorization correlation = do
    actor ← lift (refused 401 (resolve_approval_bearer verifier (bearer authorization)))
    unit_of_work (on_db (approve digest approval actor reason correlation))

  -- `deny_payment`
  unfoldable pub deny_payment : ℕ → Option Text → Option Text → Option Text → Exec (Session P) ℕ
  deny_payment approval reason authorization correlation = do
    actor ← lift (refused 401 (resolve_approval_bearer verifier (bearer authorization)))
    unit_of_work (on_db (deny_request approval actor reason correlation))

-- What the unit of work of `create_payment` ends with: an answer, or an error that is raised after the
-- commit.
pub data Admission : Type 0 where
  processing awaiting_approval : Admission
  later_error : ℕ → Admission

abbrev pub is_denied : Decision → Bool
is_denied deny = true
is_denied other = false

-- A payment that the policy denies.
unfoldable pub reject : Answer → ℕ → Option Text → Exec Db Admission
reject a payment correlation = do
  update_status payment Status.failed none
  _ ← enqueue (EventType.policy_denied a.version_id) payment correlation
  pure (later_error 403)

abbrev pub is_notified : Decision → Bool
is_notified allow_notify = true
is_notified other = false

unfoldable pub notify : Question → ℕ → Option Text → Exec Db (Unit {0})
notify q payment correlation = do
  _ ← enqueue (EventType.notification_requested q.amount q.currency) payment correlation
  pure tt

module _ (digest : Binding → Text) where
  -- A payment that is not denied, with its budget: every decision but one executes it.
  unfoldable pub proceed : Decision → Question → ℕ → ℕ → Option Text → Exec Db Admission
  proceed require_approval q payment budget correlation = do
    approval ←
        create_approval digest q.payment_request_id (some (codes "policy requires approval"))
          (pos 15)
    update_status payment Status.approval_required none
    _ ← enqueue (EventType.approval_requested approval budget) payment correlation
    pure awaiting_approval
  proceed decision q payment budget correlation = do
    _ ← prepare payment q.payment_request_id budget q.amount q.currency correlation
    choose (is_notified decision) (notify q payment correlation) (pure tt)
    pure processing

  unfoldable pub with_budget : Option ℕ → Answer → Question → ℕ → Option Text → Exec Db Admission
  with_budget none a q payment correlation = do
    update_status payment Status.failed none
    _ ← enqueue (EventType.budget_unavailable a.version_id) payment correlation
    pure (later_error 409)
  with_budget (some budget) a q payment correlation = do
    bind_budget q.payment_request_id budget
    proceed a.decision q payment budget correlation

  -- `create_payment` from the evaluation of the policy on, for a payment that is inserted.
  unfoldable pub admit : Question → Option ℕ → ℕ → Option Text → Exec Db Admission
  admit q budget payment correlation = do
    a ← evaluate_policy q
    chosen ← gets (select_budget q.account_id budget q.currency a.policy_id)
    choose (is_denied a.decision) (reject a payment correlation)
        (with_budget chosen a q payment correlation)
