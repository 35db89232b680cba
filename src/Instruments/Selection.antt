-- ===== src/Instruments/Selection.antt =====
-- Which instrument is selected.
use mathlib.Core.Path.{subst}
use agent_pay.Prelude.{
  Text, upper, List_eq, list_eq_iff, elem, true, false, Option, none, some, List, [], ◌∷◌, ◌++◌,
  Result, ok, err, Error, All, ◌≡◌, ◌⊎◌, inl, inr, ap, refl, arith, ℕ_eq,
}
use agent_pay.Instruments.{
  PaymentInstrument, InstrumentStatus, InstrumentStatus_eq, Need, excludes, validate, select,
}

-- The instrument is the account's, is active, is in the currency up to case, and is for every merchant
-- or for this one.
pub record IsEligible (need : Need) (i : PaymentInstrument) : Type 0 where
  pub account : i.account_id ≡ need.account_id
  pub status : i.status ≡ InstrumentStatus.active
  pub currency : upper i.currency ≡ upper need.currency
  pub merchant :
      (i.merchant_domains ≡ [])
      ⊎ ((d : Text) × (need.merchant_domain ≡ some d) × (elem d i.merchant_domains ≡ true))

module _ (need : Need) where
  merchant_ok :
      (ds : List Text) (o : Option Text)
      → excludes ds o ≡ false
      → (ds ≡ []) ⊎ ((d : Text) × (o ≡ some d) × (elem d ds ≡ true))
  merchant_ok [] o h = inl refl
  merchant_ok (x ∷ ds) none h = absurd (cc)
  merchant_ok (x ∷ ds) (some d) h = inr (d, refl, ground arith)

  merchant_excludes :
      (ds : List Text) (o : Option Text)
      → (ds ≡ []) ⊎ ((d : Text) × (o ≡ some d) × (elem d ds ≡ true))
      → excludes ds o ≡ false
  merchant_excludes [] o h = refl
  merchant_excludes (x ∷ ds) none (inl e) = absurd (cc)
  merchant_excludes (x ∷ ds) none (inr (d, e, f)) = absurd (cc)
  merchant_excludes (x ∷ ds) (some c) (inl e) = absurd (cc)
  merchant_excludes (x ∷ ds) (some c) (inr (d, e, f)) =
      let s : d ≡ c = cc in
      let there : elem c (x ∷ ds) ≡ true = subst (λ y. elem y (x ∷ ds) ≡ true) s f in ground arith

  validate-IsEligible : (i : PaymentInstrument) → validate need i ≡ ok tt → IsEligible need i
  unfolding validate
  validate-IsEligible i h = record {
    account = ground (arith, list_eq_iff i.account_id need.account_id);
    status = ground (arith, InstrumentStatus_eq.beq_iff i.status InstrumentStatus.active);
    currency = ground (arith, list_eq_iff (upper i.currency) (upper need.currency));
    merchant = merchant_ok i.merchant_domains need.merchant_domain (ground arith);
  }

  IsEligible-validate : (i : PaymentInstrument) → IsEligible need i → validate need i ≡ ok tt
  unfolding validate
  IsEligible-validate i h = rw ((list_eq_iff i.account_id need.account_id).1 h.account) (
      rw ((InstrumentStatus_eq.beq_iff i.status InstrumentStatus.active).1 h.status) (
        rw ((list_eq_iff (upper i.currency) (upper need.currency)).1 h.currency)
          (rw (merchant_excludes i.merchant_domains need.merchant_domain h.merchant) refl)))

  -- The first eligible instrument of the list, if there is one.
  pub Chosen : List PaymentInstrument → Result PaymentInstrument → Type 0
  Chosen is (ok i) =
      (before : List PaymentInstrument) × (after : List PaymentInstrument) × (is
        ≡ before ++ i ∷ after)
      × All (λ j. ¬ IsEligible need j) before
      × IsEligible need i
  Chosen is (err e) = All (λ j. ¬ IsEligible need j) is

  refused : (i : PaymentInstrument) (e : Error) → validate need i ≡ err e → ¬ IsEligible need i
  refused i e h k = let valid : validate need i ≡ ok tt = IsEligible-validate i k in cc

  later :
      (i : PaymentInstrument) (is : List PaymentInstrument) (r : Result PaymentInstrument)
      → ¬ IsEligible need i
      → Chosen is r
      → Chosen (i ∷ is) r
  unfolding Chosen
  later i is (ok j) h (before, after, same, none_before, fits) =
      (i ∷ before, after, ap (λ x. i ∷ x) same, (h, none_before), fits)
  later i is (err e) h k = (h, k)

  -- select gives the first instrument that is eligible, and raises exactly when none is.
  pub select-Chosen : (is : List PaymentInstrument) → Chosen is (select need is)
  unfolding select Chosen
  select-Chosen [] = tt
  select-Chosen (i ∷ is) = go (validate need i) (select-Chosen is) refl
    where
      go :
          (x : Result (Unit {0}))
          → Chosen is (select need is)
          → validate need i ≡ x
          → Chosen (i ∷ is) (elim x [ ok valid ↦ ok i | err e ↦ select need is ])
      go (ok tt) rec same = ([], is, refl, tt, validate-IsEligible i same)
      go (err e) rec same = later i is (select need is) (refused i e same) rec
