-- ===== src/Authorization/Grants.antt =====
-- What a validated authorization grants.
use agent_pay.Prelude.{ℤ, pos, ◌≤ℤ◌, ◌<ℤ◌, Text, upper, List_eq, ℕ_eq, true, elem, ◌≡◌}
use agent_pay.Authorization.{AuthorizationContext, Request, Moment, instant}

-- An authorization that covers a request at a time.
pub record Covers (c : AuthorizationContext) (r : Request) (now most : ℤ) (currency : Text)
    (until : Moment) : Type 0 where
  pub same_agent : c.agent_id ≡ r.agent_id
  pub same_account : c.account_id ≡ r.account_id
  pub in_scope : elem r.action c.scope ≡ true
  pub positive : pos 0 <ℤ r.amount
  pub within : r.amount ≤ℤ most
  pub same_currency : upper currency ≡ upper r.currency
  pub in_time : now <ℤ instant until
