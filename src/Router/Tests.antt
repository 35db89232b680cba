-- ===== src/Router/Tests.antt =====
-- An instance for the router.
use agent_pay.Prelude.{
  ℕ, Text, codes, true, ok, some, List, [], ◌∷◌, ◌≡◌, refl, ℕ_eq, List_eq, lookup, insert, list_eq,
}
use agent_pay.Provider.{MockProvider, mock}
use agent_pay.Router.{
  ProviderRoute, PaymentRouter, new_router, matches, register, first_match, for_payment,
  provider_id_for,
}
use agent_pay.Router.Selection.{register_all, provider_id_for-serves}

abbrev route : Text → List Text → ProviderRoute (MockProvider ℕ ℕ) ℕ ℕ
route id currencies = record {
  provider_id = id;
  provider = mock (λ k. k);
  merchant_domains = [];
  currencies = currencies;
}

abbrev routes : List (ProviderRoute (MockProvider ℕ ℕ) ℕ ℕ)
routes = route (codes "cards") (codes "EUR" ∷ []) ∷ route (codes "wallet") [] ∷ []

abbrev router : PaymentRouter (MockProvider ℕ ℕ) ℕ ℕ
router = record {
  routes = routes;
  by_id =
      (codes "cards", route (codes "cards") (codes "EUR" ∷ []))
      ∷ (codes "wallet", route (codes "wallet") [])
      ∷ [];
}

made : register_all routes new_router ≡ ok router
unfolding register_all register lookup insert list_eq
made = refl

chosen : provider_id_for router (codes "shop.com") (codes "USD") ≡ ok (codes "wallet")
unfolding provider_id_for first_match matches list_eq
chosen = refl

provider_id_for-serves_example :
    (r : ProviderRoute (MockProvider ℕ ℕ) ℕ ℕ) × (lookup (codes "wallet") router.by_id ≡ some r)
    × (matches (codes "shop.com") (codes "USD") r ≡ true)
    × (for_payment router (codes "shop.com") (codes "USD") ≡ ok r.provider)
provider_id_for-serves_example =
    provider_id_for-serves routes router (codes "shop.com") (codes "USD") (codes "wallet") made
      chosen
