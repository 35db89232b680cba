-- ===== src/Control.antt =====
-- reference/implementation/src/agent_pay/control.py, and the binding of approval.py
use agent_pay.Prelude.{
  ℕ, ◌+◌, ◌*◌, ltb, ℤ, pos, leb_ℤ, pos_part, Text, strip, upper, ◌==◌, List_eq, ℕ_eq, nat_eq, Bool,
  true, false, ◌&&◌, ◌||◌, Option, none, some, or_else, lookup, modify, append_row, find_row, Table,
  List, [], ◌∷◌, ◌++◌, if◌then◌else◌,
}
use agent_pay.Prelude.Errors.{Error.lookup_error, Error.integrity_error}
use agent_pay.Prelude.Exec.{Exec, pure, gets, lift, or_raise, ◌>>=◌, ◌>>◌, update, raise_if}
use agent_pay.Domain.{Decision, PaymentIntent, Money, make_money}
use agent_pay.Policy.{SpendingPolicy, evaluate_with_trace}
use agent_pay.Store.{
  Db, Payment, PaymentRequest, Budget, StoredPolicy, PolicyVersion, Approval, ApprovalStatus,
  ApprovalStatus_eq, Status, JoinKind, for_update, fresh_id,
}

-- A row that `active_policy` reads.
pub record PolicyRow : Type 0 where
  pub policy_id : ℕ
  pub version_id : ℕ
  pub version : ℕ
  pub updated_at : ℕ
  pub rules : SpendingPolicy

abbrev is_wanted : Option ℕ → ℕ → Bool
is_wanted none policy = true
is_wanted (some wanted) policy = wanted == policy

abbrev joined : ℕ → PolicyVersion → Option StoredPolicy → ℕ → List PolicyRow
joined id v none account = []
joined id v (some p) account =
    if v.active && p.active && p.account_id == account
    then (record {
      policy_id = v.policy_id;
      version_id = id;
      version = v.version;
      updated_at = p.updated_at;
      rules = v.rules;
    })
      ∷ []
    else []

-- The active versions of the active policies of an account, or of one policy.
unfoldable pub policy_rows :
    Table PolicyVersion → ℕ → Option ℕ → Table StoredPolicy → List PolicyRow
policy_rows [] account wanted policies = []
policy_rows ((id, v) ∷ t) account wanted policies =
    let rest = policy_rows t account wanted policies in
    elim (is_wanted wanted v.policy_id) [
      | false ↦ rest
      | true ↦ joined id v (lookup v.policy_id policies) account ++ rest
    ]

-- ORDER BY updated_at DESC, version DESC: `a` comes before `b`.
abbrev pub precedes : PolicyRow → PolicyRow → Bool
precedes a b =
    ltb b.updated_at a.updated_at || nat_eq b.updated_at a.updated_at && ltb b.version a.version

-- LIMIT 1
unfoldable pub first_row : List PolicyRow → Option PolicyRow
first_row [] = none
first_row (r ∷ rs) = elim (first_row rs) [
  | none ↦ some r
  | some b ↦ if precedes b r then some b else some r
]

-- `active_policy`. The rows of one policy have one `updated_at`.
unfoldable pub active_policy : ℕ → Option ℕ → Db → Option PolicyRow
active_policy account policy db =
    first_row (policy_rows db.policy_versions account policy db.policies)

-- The arguments of `evaluate_policy`.
pub record Question : Type 0 where
  pub account_id : ℕ
  pub policy_id : Option ℕ
  pub payment_request_id : ℕ
  pub agent : Text
  pub payment : Text
  pub amount : ℤ
  pub currency : Text
  pub merchant_domain : Text
  pub category : Option Text

-- What `evaluate_policy` returns, but for the version's number and the evidence.
pub record Answer : Type 0 where
  pub decision : Decision
  pub version_id : Option ℕ
  pub policy_id : Option ℕ

abbrev pub intent_of : Question → Money → PaymentIntent
intent_of q amount = record {
  payment_id = q.payment;
  agent_id = q.agent;
  amount = amount;
  merchant_domain = q.merchant_domain;
  idempotency_key = [];
  merchant_category = none;
  region = none;
  instrument_class = none;
  requested_at = none;
}

unfoldable pub judge : Option PolicyRow → Question → Exec Db Answer
judge none q = pure (record { decision = Decision.deny; version_id = none; policy_id = none })
judge (some row) q = do
  amount ← lift (make_money q.amount q.currency)
  update (λ db. record db {
    payment_requests =
        modify q.payment_request_id (λ r. record r { policy_version_id = some row.version_id })
          db.payment_requests;
  })
  pure (record {
    decision = (evaluate_with_trace row.rules (intent_of q amount) q.category none).decision;
    version_id = some row.version_id;
    policy_id = some row.policy_id;
  })

-- `evaluate_policy`
unfoldable pub evaluate_policy : Question → Exec Db Answer
evaluate_policy q = do row ← gets (active_policy q.account_id q.policy_id); judge row q

-- policy_id = %s OR policy_id IS NULL; nothing equals NULL.
abbrev is_open_to : Option ℕ → Option ℕ → Bool
is_open_to none policy = true
is_open_to (some p) none = false
is_open_to (some p) (some q) = p == q

abbrev pub is_compatible : ℕ → Text → Option ℕ → Budget → Bool
is_compatible account currency policy b =
    b.account_id == account && b.currency == currency && b.active && is_open_to b.policy_id policy

abbrev if_compatible : ℕ → ℕ → Text → Option ℕ → Option Budget → Option ℕ
if_compatible id account currency policy none = none
if_compatible id account currency policy (some b) =
    if is_compatible account currency policy b then some id else none

unfoldable pub compatible_ids : ℕ → Text → Option ℕ → Table Budget → List ℕ
compatible_ids account currency policy [] = []
compatible_ids account currency policy ((id, b) ∷ t) =
    let rest = compatible_ids account currency policy t in
    if is_compatible account currency policy b then id ∷ rest else rest

abbrev only : List ℕ → Option ℕ
only [] = none
only (id ∷ []) = some id
only (id ∷ other ∷ ids) = none

-- `select_budget`
unfoldable pub select_budget : ℕ → Option ℕ → Text → Option ℕ → Db → Option ℕ
select_budget account (some budget) currency policy db =
    if_compatible budget account currency policy (lookup budget db.budgets)
select_budget account none currency policy db =
    only (compatible_ids account currency policy db.budgets)

-- `bind_budget`
unfoldable pub bind_budget : ℕ → ℕ → Exec Db (Unit {0})
bind_budget request budget = update (λ db. record db {
  payment_requests = modify request (λ r. record r { budget_id = some budget }) db.payment_requests;
})

-- `ApprovalBinding`, with the currency as `digest` writes it.
pub record Binding : Type 0 where
  pub payment_request_id : ℕ
  pub account_id : ℕ
  pub agent_id : ℕ
  pub amount : ℤ
  pub currency : Text
  pub merchant_reference : Option Text
  pub policy_version_id : Option ℕ
  pub authorization_evidence_id : Option ℕ

abbrev domain_at : Option ℕ → Db → Option Text
domain_at none db = none
domain_at (some id) db = elim (lookup id db.merchants) [ none ↦ none | some m ↦ m.domain ]

abbrev pub binding_of : ℕ → PaymentRequest → Db → Binding
binding_of id r db = record {
  payment_request_id = id;
  account_id = r.account_id;
  agent_id = r.agent_id;
  amount = r.amount;
  currency = upper (strip r.currency);
  merchant_reference = domain_at r.merchant_id db;
  policy_version_id = r.policy_version_id;
  authorization_evidence_id = r.authorization_evidence_id;
}

-- `digest` is the SHA-256 digest of a binding's canonical JSON text.
module _ (digest : Binding → Text) where
  -- `create_approval`
  unfoldable pub create_approval : ℕ → Option Text → ℤ → Exec Db ℕ
  create_approval request reason expires_minutes = do
    found ← gets (λ db. lookup request db.payment_requests)
    row ← or_raise found (lookup_error "payment request not found")
    binding ← gets (binding_of request row)
    raise_if (leb_ℤ expires_minutes (pos 0)) (integrity_error "approvals_check")
    id ← fresh_id
    update (λ db. record db {
      approvals =
          append_row id
            (record {
              payment_request_id = request;
              status = ApprovalStatus.pending;
              expires_at = some (db.now + 60 * pos_part expires_minutes);
              approved_at = none;
              approved_by = none;
              decided_at = none;
              reason = reason;
              intent_digest = some (digest binding);
            })
            db.approvals;
    })
    pure id

abbrev if_approved : {A : Type 0} → ApprovalStatus → A → A → A
if_approved status a b = if status == ApprovalStatus.approved then a else b

abbrev pub decided : ApprovalStatus → Text → Option Text → ℕ → Approval → Approval
decided status actor reason now a = record a {
  status = status;
  decided_at = some now;
  approved_at = if_approved status (some now) a.approved_at;
  approved_by = if_approved status (some actor) a.approved_by;
  reason = or_else reason a.reason;
}

-- `set_approval`
unfoldable pub set_approval : ℕ → ApprovalStatus → Text → Option Text → Exec Db (Unit {0})
set_approval approval status actor reason = update (λ db. record db {
  approvals = modify approval (decided status actor reason db.now) db.approvals;
})

-- What the API reads of a payment request and its payment.
pub record RequestRow : Type 0 where
  pub request : PaymentRequest
  pub payment_id : ℕ
  pub status : Status

abbrev with_payment : Option PaymentRequest → Option (ℕ × Payment) → Option RequestRow
with_payment none p = none
with_payment (some r) none = none
with_payment (some r) (some (id, p)) =
    some (record { request = r; payment_id = id; status = p.status })

-- `payment_request`: a join on the left with the merchants, and FOR UPDATE.
unfoldable pub payment_request : ℕ → Exec Db (Option RequestRow)
payment_request request = for_update JoinKind.left (
    gets (λ db.
      with_payment (lookup request db.payment_requests)
        (find_row (λ p. p.payment_request_id == request) db.payments)))

module _ (digest : Binding → Text) where
  -- `approval_binding_digest`
  unfoldable pub approval_binding_digest : ℕ → Exec Db Text
  approval_binding_digest request = do
    found ← payment_request request
    req ← or_raise found (lookup_error "payment request not found")
    binding ← gets (binding_of request req.request)
    pure (digest binding)
