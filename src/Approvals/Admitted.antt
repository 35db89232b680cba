-- ===== src/Approvals/Admitted.antt =====
-- A payment is executed only if the account's policy permits it.
use agent_pay.Prelude.{
  ℕ, Text, false, Option, none, some, Result, ok, err, ◌≡◌, ◌≢◌, refl, modify, ℕ_eq,
}
use agent_pay.Prelude.Exec.{pure, update, lift, ◌>>=◌}
use agent_pay.Prelude.Exec.Keeps.{
  Ensures, bind-Ensures, gets-Ensures, choose-Ensures, constant-Ensures,
}
use agent_pay.Approvals.{Admission.processing, is_denied, reject, admit}
use agent_pay.Control.{
  Binding, PolicyRow, Question, Answer, active_policy, intent_of, judge, evaluate_policy,
}
use agent_pay.Domain.{Decision, Money, make_money}
use agent_pay.Outbox.{enqueue}
use agent_pay.PaymentRepository.{update_status}
use agent_pay.Policy.{evaluate}
use agent_pay.Policy.Decisions.{Permits, evaluate_iff}
use agent_pay.Store.{Db, fresh_id}

-- The account has an active policy, and it permits the payment.
pub record IsPermitted (q : Question) (db : Db) : Type 0 where
  pub row : PolicyRow
  pub amount : Money
  pub active : active_policy q.account_id q.policy_id db ≡ some row
  pub money : make_money q.amount q.currency ≡ ok amount
  pub permits : Permits row.rules (intent_of q amount) q.category

not_denied : (d : Decision) → is_denied d ≡ false → d ≢ Decision.deny
not_denied d h e = cc

judge-IsPermitted :
    (o : Option PolicyRow) (q : Question) (db : Db)
    → active_policy q.account_id q.policy_id db ≡ o
    → Ensures (λ a t. is_denied a.decision ≡ false → IsPermitted q db) (judge o q db)
unfolding judge evaluate ◌>>=◌ update
judge-IsPermitted none q db e = λ h. absurd (cc)
judge-IsPermitted (some row) q db e = go (make_money q.amount q.currency) refl
  where
    go :
        (r : Result Money)
        → make_money q.amount q.currency ≡ r
        → Ensures
            (λ (a : Answer) (t : Db). is_denied a.decision ≡ false → IsPermitted q db)
            ((lift r >>= λ amount.
                update (λ d. record d {
                  payment_requests =
                      modify q.payment_request_id
                        (λ r. record r { policy_version_id = some row.version_id })
                        d.payment_requests;
                })
                >>= λ u. pure (record {
                  decision = evaluate row.rules (intent_of q amount) q.category;
                  version_id = some row.version_id;
                  policy_id = some row.policy_id;
                }))
              db)
    go (err x) same = tt
    go (ok amount) same = λ h. record {
      row = row;
      amount = amount;
      active = e;
      money = same;
      permits = (evaluate_iff row.rules (intent_of q amount) q.category).0 (not_denied _ h);
    }

module _ (digest : Binding → Text) where
  -- When `admit` sends a payment on to its execution, `active_policy` gives a policy for the account
  -- and for the policy that the request names, if it names one, the amount makes a `Money`, and this
  -- policy permits the payment.
  pub admit-IsPermitted :
      (q : Question) (budget : Option ℕ) (payment : ℕ) (correlation : Option Text) (db : Db)
      → Ensures
          (λ r t. r ≡ processing → IsPermitted q db)
          (admit digest q budget payment correlation db)
  unfolding admit evaluate_policy
  admit-IsPermitted q budget payment correlation db =
      bind-Ensures (λ a t. is_denied a.decision ≡ false → IsPermitted q db) _ _ _ db
        (gets-Ensures _ _ _ db (judge-IsPermitted _ q db refl))
        (λ a t permitted.
          gets-Ensures (λ r u. r ≡ processing → IsPermitted q db) _ _ t
            (choose-Ensures (λ r u. r ≡ processing → IsPermitted q db) _ _ _ t
              (λ denied. rejected a payment correlation t)
              (λ allowed.
                constant-Ensures (λ r u. r ≡ processing → IsPermitted q db) _
                  (λ r u h. permitted allowed))))
    where
      rejected :
          (a : Answer) (payment : ℕ) (correlation : Option Text) (t : Db)
          → Ensures (λ r u. r ≡ processing → IsPermitted q db) (reject a payment correlation t)
      rejected a payment correlation t =
          unfold reject update_status enqueue fresh_id update ◌>>=◌ in λ h. absurd (cc)
