-- ===== src/LifecycleApi/Agents.antt =====
-- Only the agent of a payment, on the payment's account, moves it.
use agent_pay.Prelude.{
  ℕ, Text, codes, List_eq, list_eq_iff, ℕ_eq, elem, Option, some, lookup, true, Result, ok, err,
  Error, ◌≡◌, refl, ◌⊎◌, inl, inr, arith,
}
use agent_pay.Prelude.Exec.{◌>>=◌}
use agent_pay.Prelude.Exec.Reads.{Reads, or_raise-Reads, lift-Reads, gets-Reads, last-Reads}
use agent_pay.Auth.{Verifier, Principal, resolve_bearer, require_agent}
use agent_pay.LifecycleApi.{Operation, bearer, refused, request_of, authenticate_payment, run}
use agent_pay.Provider.{MockProvider}
use agent_pay.Store.{Db, PaymentRequest, Key, Spelled, Session, on_db}

module _ (verifier : Verifier) (uuid : ℕ → Text) where
  -- The header has a token of a principal who may create payments, and the payment's request is of
  -- this agent and this account.
  pub record IsAgent (payment : ℕ) (authorization : Option Text) (db : Db) : Type 0 where
    pub token : Text
    pub principal : Principal
    pub row : PaymentRequest
    pub presented : bearer authorization ≡ some token
    pub resolved : resolve_bearer verifier token ≡ ok principal
    pub found : request_of (lookup payment db.payments) db ≡ some row
    pub agent : principal.agent_id ≡ uuid row.agent_id
    pub account : principal.account_id ≡ uuid row.account_id
    pub scope : elem (codes "payments:create") principal.scopes ≡ true

  -- What require_agent asks.
  require_agent-asks :
      (p : Principal) (a c : Text)
      → require_agent p a c ≡ ok tt
      → (p.agent_id ≡ a) × (p.account_id ≡ c) × (elem (codes "payments:create") p.scopes ≡ true)
  unfolding require_agent
  require_agent-asks p a c h = (
    ground (arith, list_eq_iff p.agent_id a),
    ground (arith, list_eq_iff p.account_id c),
    ground arith,
  )

  refused-ok : {A : Type 0} (status : ℕ) (r : Result A) (a : A) → refused status r ≡ ok a → r ≡ ok a
  refused-ok status (ok b) a h = h
  refused-ok status (err (Error.permission_error m)) a h = absurd (cc)
  refused-ok status (err (Error.value_error m)) a h = absurd (cc)
  refused-ok status (err (Error.lookup_error m)) a h = absurd (cc)
  refused-ok status (err (Error.http_error n m)) a h = absurd (cc)
  refused-ok status (err (Error.integrity_error m)) a h = absurd (cc)
  refused-ok status (err (Error.database_error m)) a h = absurd (cc)
  refused-ok status (err (Error.runtime_error m)) a h = absurd (cc)

  authenticate_payment-IsAgent :
      (payment : ℕ) (authorization : Option Text) (db : Db)
      → Reads
          (λ u. IsAgent payment authorization db)
          (authenticate_payment verifier uuid payment authorization)
          db
  unfolding authenticate_payment
  authenticate_payment-IsAgent payment authorization db =
      or_raise-Reads _ _ _ _ db (λ token presented. lift-Reads _ _ _ db (λ principal valid.
        gets-Reads _ _ _ db (
          or_raise-Reads _ _ _ _ db (λ row found. last-Reads _ _ db (λ u asked.
            let asks =
              require_agent-asks principal (uuid row.agent_id) (uuid row.account_id)
                (refused-ok 403 _ tt asked) in
            record {
              token = token;
              principal = principal;
              row = row;
              presented = presented;
              resolved = refused-ok 401 _ principal valid;
              found = found;
              agent = asks.0;
              account = asks.1;
              scope = asks.2;
            })))))

  -- Either the caller is the agent of the payment, on the payment's account and with the scope to
  -- create payments, or the request is refused, and neither the database nor the provider changes.
  pub run-authorized :
      (reference : Key → Text) (operation : Operation) (payment : ℕ) (amount : Spelled)
      (currency : Text) (authorization correlation : Option Text)
      (s : Session (MockProvider Key Text))
      → IsAgent payment authorization s.db
        ⊎ ((e : Error) × (run verifier uuid reference operation payment amount currency
                authorization correlation s
              ≡ (err e, s)))
  unfolding run on_db ◌>>=◌
  run-authorized reference operation payment amount currency authorization correlation s =
      elim (authenticate_payment-IsAgent payment authorization s.db) [
        | inl (u, same, h) ↦ inl h
        | inr (e, same) ↦ inr (e, rw same refl)
      ]
