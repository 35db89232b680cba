-- ===== src/Authorization/Tests.antt =====
-- An instance for authorizations.
use agent_pay.Prelude.{pos, codes, some, none, ◌∷◌, []}
use agent_pay.Authorization.{AuthorizationContext, Request, Moment}
use agent_pay.Samples.{ten, usd}

abbrev until : Moment
until = record { wall = pos 2000; offset = none }

abbrev grant : AuthorizationContext
grant = record {
  evidence_id = codes "e";
  issuer = codes "i";
  agent_id = codes "a";
  account_id = codes "b";
  delegation_id = none;
  scope = codes "PAYMENT" ∷ [];
  max_amount = some ten;
  currency = some usd;
  valid_until = some until;
  digest = none;
  version = none;
}

abbrev asked : Request
asked = record {
  agent_id = codes "a";
  account_id = codes "b";
  amount = pos 5;
  currency = codes "usd";
  action = codes "PAYMENT";
}
