-- ===== src/Router/Selection.antt =====
-- Which provider serves a payment.
use mathlib.Core.Path.{subst}
use agent_pay.Prelude.{
  Text, List_eq, ℕ_eq, list_eq_iff, beq_refl, true, false, none, some, List, [], ◌∷◌, ◌++◌, lookup,
  insert, contains, lookup-insert, Result, ok, err, ◌≡◌, inl, inr, refl, sym, ap, arith, Bool-cases,
  All,
}
use agent_pay.Prelude.Errors.{◌>>=◌}
use agent_pay.Router.{
  ProviderRoute, PaymentRouter, new_router, matches, register, first_match, for_payment,
  provider_id_for,
}

module _ {P I K : Type 0} where
  -- Every route is found by its id.
  abbrev pub AllById : PaymentRouter P I K → List (ProviderRoute P I K) → Type 0
  AllById router routes = All (λ r. lookup r.provider_id router.by_id ≡ some r) routes

  unfoldable pub register_all :
      List (ProviderRoute P I K) → PaymentRouter P I K → Result (PaymentRouter P I K)
  register_all [] router = ok router
  register_all (r ∷ rs) router = register r router >>= register_all rs

  kept :
      (new : ProviderRoute P I K) (router : PaymentRouter P I K) (rs : List (ProviderRoute P I K))
      → lookup new.provider_id router.by_id ≡ none
      → AllById router rs
      → All
          (λ r. lookup r.provider_id (insert new.provider_id new router.by_id) ≡ some r)
          (rs ++ new ∷ [])
  kept new router [] h k = (
    ground (
      arith,
      lookup-insert new.provider_id new.provider_id new router.by_id,
      beq_refl new.provider_id,
    ),
    tt,
  )
  kept new router (r ∷ rs) h k = (
    ground (
      arith,
      k.0,
      h,
      lookup-insert new.provider_id r.provider_id new router.by_id,
      list_eq_iff new.provider_id r.provider_id,
    ),
    kept new router rs h k.1,
  )

  -- Every route is found by its id.
  pub IsIndexed : PaymentRouter P I K → Type 0
  IsIndexed router = AllById router router.routes

  unlisted :
      (id : Text) (router : PaymentRouter P I K)
      → contains id router.by_id ≡ false
      → lookup id router.by_id ≡ none
  unlisted id router h = ground arith

  register-IsIndexed :
      (new : ProviderRoute P I K) (router r : PaymentRouter P I K)
      → IsIndexed router
      → register new router ≡ ok r
      → IsIndexed r × (r.routes ≡ router.routes ++ new ∷ [])
  unfolding register IsIndexed
  register-IsIndexed new router r h e = elim (Bool-cases (contains new.provider_id router.by_id)) [
    | inl there ↦ absurd (ground arith)
    | inr free ↦
        let s : (record {
          routes = router.routes ++ new ∷ [];
          by_id = insert new.provider_id new router.by_id;
        })
            ≡ r =
          ground arith in
        (
          subst IsIndexed s
              (kept new router router.routes (unlisted new.provider_id router free) h),
          sym (ap (λ (x : PaymentRouter P I K). x.routes) s),
        )
  ]

  register_all-IsIndexed :
      (rs : List (ProviderRoute P I K)) (router r : PaymentRouter P I K)
      → IsIndexed router
      → register_all rs router ≡ ok r
      → IsIndexed r
  unfolding register_all
  register_all-IsIndexed [] router r h e = let s : router ≡ r = cc in subst IsIndexed s h
  register_all-IsIndexed (new ∷ rs) router r h e =
      go (register new router)
        (λ next same k.
          register_all-IsIndexed rs next r (register-IsIndexed new router next h same).0 k)
        refl e
    where
      go :
          (x : Result (PaymentRouter P I K))
          → ((next : PaymentRouter P I K)
              → register new router ≡ ok next
              → register_all rs next ≡ ok r
              → IsIndexed r)
          → register new router ≡ x
          → (x >>= register_all rs) ≡ ok r
          → IsIndexed r
      go (err y) rec same k = absurd (cc)
      go (ok next) rec same k = rec next same k

  first_match-listed :
      (d c : Text) (router : PaymentRouter P I K) (rs : List (ProviderRoute P I K))
      (route : ProviderRoute P I K)
      → AllById router rs
      → first_match d c rs ≡ ok route
      → (lookup route.provider_id router.by_id ≡ some route) × (matches d c route ≡ true)
  unfolding first_match
  first_match-listed d c router [] route h e = absurd (cc)
  first_match-listed d c router (r ∷ rs) route h e = elim (Bool-cases (matches d c r)) [
    | inl fits ↦
        let s : r ≡ route = ground arith in
        subst (λ x. (lookup x.provider_id router.by_id ≡ some x) × (matches d c x ≡ true)) s
          (h.0, fits)
    | inr other ↦ first_match-listed d c router rs route h.1 (rw other at e)
  ]

  -- In a router made by registrations, the id that provider_id_for gives belongs to one registered
  -- route: that route serves the payment, and for_payment gives its provider.
  pub provider_id_for-serves :
      (rs : List (ProviderRoute P I K)) (router : PaymentRouter P I K) (d c id : Text)
      → register_all rs new_router ≡ ok router
      → provider_id_for router d c ≡ ok id
      → (route : ProviderRoute P I K) × (lookup id router.by_id ≡ some route)
        × (matches d c route ≡ true)
        × (for_payment router d c ≡ ok route.provider)
  unfolding provider_id_for for_payment IsIndexed
  provider_id_for-serves rs router d c id made e = go (first_match d c router.routes) refl e
    where
      go :
          (x : Result (ProviderRoute P I K))
          → first_match d c router.routes ≡ x
          → (x >>= λ route. ok route.provider_id) ≡ ok id
          → (route : ProviderRoute P I K) × (lookup id router.by_id ≡ some route)
            × (matches d c route ≡ true)
            × ((first_match d c router.routes >>= λ route. ok route.provider) ≡ ok route.provider)
      go (err y) same k = absurd (cc)
      go (ok route) same k =
          let found =
            first_match-listed d c router router.routes route
              (register_all-IsIndexed rs new_router router tt made) same in
          let same_id : route.provider_id ≡ id = cc in
          (route, rw (← same_id) (found.0), found.1, rw same refl)
