-- ===== src/Router.antt =====
-- reference/implementation/src/agent_pay/router.py. `P` is the state of all providers together, `I`
-- and `K` are ids and keys.
pub mod Selection
mod Tests
use agent_pay.Prelude.{
  Text, ◌==◌, List_eq, ℕ_eq, Bool, true, false, ◌&&◌, ◌||◌, Option, none, some, List, [], ◌∷◌, ◌++◌,
  elem, Dict, lookup, contains, insert, Result, ok, err, if◌then◌else◌,
}
use agent_pay.Prelude.Errors.{Error.value_error, raise_if, ◌>>=◌, ◌>>◌}
use agent_pay.Provider.{PaymentProvider, ProviderOutcome, Order}

pub record ProviderRoute (P I K : Type 0) : Type 0 where
  pub provider_id : Text
  pub provider : PaymentProvider P I K
  pub merchant_domains : List Text
  pub currencies : List Text

abbrev is_none : List Text → Bool
is_none [] = true
is_none (t ∷ ts) = false

-- `PaymentRouter`: `_routes` and `_by_id`.
pub record PaymentRouter (P I K : Type 0) : Type 0 where
  pub routes : List (ProviderRoute P I K)
  pub by_id : Dict Text (ProviderRoute P I K)

module _ {P I K : Type 0} where
  -- `PaymentRouter()`
  abbrev pub new_router : PaymentRouter P I K
  new_router = record { routes = []; by_id = [] }

  -- `ProviderRoute.matches`
  unfoldable pub matches : Text → Text → ProviderRoute P I K → Bool
  matches merchant_domain currency route =
      (is_none route.merchant_domains || elem merchant_domain route.merchant_domains)
      && (is_none route.currencies || elem currency route.currencies)

  -- `register`
  unfoldable pub register : ProviderRoute P I K → PaymentRouter P I K → Result (PaymentRouter P I K)
  register route router = do
    raise_if (contains route.provider_id router.by_id) (value_error "provider already registered")
    ok (record {
      routes = router.routes ++ route ∷ [];
      by_id = insert route.provider_id route router.by_id;
    })

  -- The loop that `for_payment` and `provider_id_for` share.
  unfoldable pub first_match :
      Text → Text → List (ProviderRoute P I K) → Result (ProviderRoute P I K)
  first_match merchant_domain currency [] = err (value_error "no payment provider route")
  first_match merchant_domain currency (route ∷ routes) =
      if matches merchant_domain currency route
      then ok route
      else first_match merchant_domain currency routes

  -- `for_payment`
  unfoldable pub for_payment : PaymentRouter P I K → Text → Text → Result (PaymentProvider P I K)
  for_payment router merchant_domain currency = do
    route ← first_match merchant_domain currency router.routes
    ok route.provider

  -- `provider_id_for`
  unfoldable pub provider_id_for : PaymentRouter P I K → Text → Text → Result Text
  provider_id_for router merchant_domain currency = do
    route ← first_match merchant_domain currency router.routes
    ok route.provider_id

  -- `_provider`
  unfoldable pub default_provider : List (ProviderRoute P I K) → Result (PaymentProvider P I K)
  default_provider [] = err (value_error "no payment providers registered")
  default_provider (route ∷ routes) = ok route.provider

  abbrev called :
      Result (PaymentProvider P I K)
      → (PaymentProvider P I K → P → ProviderOutcome × P)
      → P
      → Result ProviderOutcome × P
  called (err e) method s = (err e, s)
  called (ok provider) method s = let (outcome, t) = method provider s in (ok outcome, t)

  -- `charge`, `capture`, `void` and `refund` of the router itself.
  unfoldable pub charge : PaymentRouter P I K → Order I K → P → Result ProviderOutcome × P
  charge router order = called (default_provider router.routes) (λ p. p.charge order)

  unfoldable pub capture : PaymentRouter P I K → Order I K → P → Result ProviderOutcome × P
  capture router order = called (default_provider router.routes) (λ p. p.capture order)

  unfoldable pub void : PaymentRouter P I K → Order I K → P → Result ProviderOutcome × P
  void router order = called (default_provider router.routes) (λ p. p.void order)

  unfoldable pub refund : PaymentRouter P I K → Order I K → P → Result ProviderOutcome × P
  refund router order = called (default_provider router.routes) (λ p. p.refund order)
