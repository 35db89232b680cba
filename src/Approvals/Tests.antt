-- ===== src/Approvals/Tests.antt =====
-- Runs and instances for the decisions on approvals.
use agent_pay.Prelude.{
  ℕ, Text, codes, pos, true, none, some, ok, err, Error, [], ◌∷◌, ◌≡◌, refl, ℕ_eq, lookup, modify,
  find_row, strip, upper, list_eq, eq_of_discrete, ◌+ℤ◌, ◌-ℤ◌, lower, or_none,
}
use agent_pay.Prelude.Errors.{Error.http_error}
use agent_pay.Prelude.Exec.{◌>>=◌, update, raise_if}
use agent_pay.Prelude.Exec.Keeps.{Ensures}
use agent_pay.Policy.{SpendingPolicy, evaluate_with_trace}
use agent_pay.Domain.{make_money}
use agent_pay.Approvals.Admitted.{IsPermitted, admit-IsPermitted}
use agent_pay.Approvals.{notify, admit, with_budget, proceed, processing, approve_payment}
use agent_pay.Approvals.Once.{approving, decide, decide-never, approve_payment-expired}
use agent_pay.Auth.{Verifier, resolve_approval_bearer}
use agent_pay.BudgetRepository.{update_budget, insert_reservation, reserve_in, reserve}
use agent_pay.Control.{
  Question, evaluate_policy, active_policy, policy_rows, first_row, judge, select_budget,
  bind_budget, Binding,
}
use agent_pay.Orchestrator.{bound_rows, start, prepare}
use agent_pay.Outbox.{enqueue}
use agent_pay.PaymentRepository.{update_status}
use agent_pay.Provider.{MockProvider}
use agent_pay.Samples.{with_payment}
use agent_pay.Samples
use agent_pay.Store.{
  Db, Approval, ApprovalStatus, Status, Status-discrete, ReservationStatus-discrete, Key, Session,
  fresh_id,
}

abbrev verifier : Verifier
verifier = record {
  getenv = λ key. some (codes "development");
  decode = λ url token audience issuer. none;
}

abbrev digest : Binding → Text
digest binding = codes "digest"

abbrev approval : ℕ → Approval
approval expires_at = record {
  payment_request_id = 2;
  status = ApprovalStatus.pending;
  expires_at = some expires_at;
  approved_at = none;
  approved_by = none;
  decided_at = none;
  reason = none;
  intent_digest = some (codes "digest");
}

-- A payment of ten dollars that waits for the approval 9.
abbrev asking : ℕ → Db
asking expires_at = record (with_payment Status.approval_required) {
  approvals = (9, approval expires_at) ∷ [];
}

abbrev session : ℕ → Session (MockProvider Key Text)
session expires_at = record {
  durable = asking expires_at;
  db = asking expires_at;
  provider = Samples.approving;
}

abbrev header : Text
header = codes "Bearer development"

decide-never_example :
    (e : Error) × (decide verifier digest 9 approving none (some header) none (session 200)
      ≡ (err e, session 200))
decide-never_example =
    decide-never verifier digest 9 approving none (some header) none (session 200) refl

known : resolve_approval_bearer verifier (some (codes "development")) ≡ ok (codes "development")
unfolding resolve_approval_bearer list_eq
known = refl

approve_payment-expired_example :
    approve_payment verifier digest 9 none (some header) none (session 50)
    ≡ (err (http_error 409 "approval has expired"), session 50)
unfolding strip lookup
approve_payment-expired_example =
    approve_payment-expired verifier digest 9 none (some header) none (codes "development")
      (approval 50) (session 50) known refl refl refl refl

-- Up to twenty dollars, with an approval above fifteen.
abbrev rules : SpendingPolicy
rules = record {
  per_transaction_limit = pos 200000;
  notify_above = none;
  approval_above = some (pos 150000);
  allowed_categories = none;
  denied_categories = codes "gambling" ∷ [];
  allowed_domains = none;
  denied_domains = [];
  allowed_currencies = none;
  denied_currencies = [];
  allowed_regions = none;
  denied_regions = [];
  allowed_instrument_classes = none;
  denied_instrument_classes = [];
  allowed_weekdays = none;
  start_time = none;
  end_time = none;
}

abbrev governed : Db
governed = record (with_payment Status.policy_check) {
  policies = (20, record { account_id = 7; active = true; updated_at = 0 }) ∷ [];
  policy_versions = (21, record { policy_id = 20; version = 1; rules = rules; active = true }) ∷ [];
}

abbrev question : Question
question = record {
  account_id = 7;
  policy_id = none;
  payment_request_id = 2;
  agent = codes "agent";
  payment = codes "payment";
  amount = Samples.ten;
  currency = Samples.usd;
  merchant_domain = codes "shop.com";
  category = some (codes "books");
}

admit-IsPermitted_example :
    Ensures
      (λ r t. r ≡ processing → IsPermitted question governed)
      (admit digest question (some 3) 1 none governed)
admit-IsPermitted_example = admit-IsPermitted digest question (some 3) 1 none governed

admitted : (admit digest question (some 3) 1 none governed).0 ≡ ok processing
unfolding admit evaluate_policy active_policy policy_rows first_row judge evaluate_with_trace
    make_money select_budget bind_budget with_budget proceed notify prepare bound_rows start reserve
    reserve_in insert_reservation update_budget update_status enqueue fresh_id ◌>>=◌ update raise_if
    lookup modify find_row strip upper lower or_none list_eq eq_of_discrete Status-discrete
    ReservationStatus-discrete ◌+ℤ◌ ◌-ℤ◌
admitted = refl
