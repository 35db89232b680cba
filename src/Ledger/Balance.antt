-- ===== src/Ledger/Balance.antt =====
-- What an in-memory ledger promises: every journal balances, and nothing that was posted changes.
use agent_pay.Prelude.{
  pos, leb_ℤ, ◌<ℤ◌, eq_ℤ, Text, ◌==◌, List_eq, ℕ_eq, true, false, not, List, [], ◌∷◌, any, All,
  lookup, insert, lookup-insert, none, some, Result, ok, err, Error, ◌⊎◌, ◌≡◌, ◌≢◌, ◌↔◌, arith,
  refl, sym, ◌∙◌, eq_ℤ_iff, any-false, any-of_All, All-map, beq_refl, Option-cases, inl, inr,
  list_eq_iff, Bool-cases,
}
use agent_pay.Prelude.Errors.{Error.value_error, ◌>>=◌}
use agent_pay.Ledger.{
  Posting, Journal, InMemoryLedger, mixed, debits, credits, validate, post, put, journal_eq_iff,
}

-- The double-entry rule: postings in one currency, each of a positive amount, whose debits and
-- credits have the same positive sum.
pub record IsBalanced (ps : List Posting) : Type 0 where
  pub currency : Text
  pub in_currency : All (λ p. p.currency ≡ currency) ps
  pub positive : All (λ p. pos 0 <ℤ p.amount) ps
  pub moves : pos 0 <ℤ debits ps
  pub equal : debits ps ≡ credits ps

same_currency : (p q : Posting) → not (q.currency == p.currency) ≡ false → q.currency ≡ p.currency
same_currency p q h = ground (arith, list_eq_iff q.currency p.currency)

other_currency : (p q : Posting) → q.currency ≡ p.currency → not (q.currency == p.currency) ≡ false
other_currency p q h = ground (arith, list_eq_iff q.currency p.currency)

is_positive : (p : Posting) → leb_ℤ p.amount (pos 0) ≡ false → pos 0 <ℤ p.amount
is_positive p h = ground arith

not_positive : (p : Posting) → pos 0 <ℤ p.amount → leb_ℤ p.amount (pos 0) ≡ false
not_positive p h = ground arith

module _ (i : Text) (p : Posting) (ps : List Posting) where
  validate-checks :
      validate (record { journal_id = i; postings = p ∷ ps }) ≡ ok tt
      → (mixed (p ∷ ps) ≡ false)
        × (leb_ℤ (debits (p ∷ ps)) (pos 0) ≡ false)
        × (eq_ℤ (debits (p ∷ ps)) (credits (p ∷ ps)) ≡ true)
        × (any (λ q. leb_ℤ q.amount (pos 0)) (p ∷ ps) ≡ false)
  unfolding validate
  validate-checks h = ground arith

  checks-validate :
      mixed (p ∷ ps) ≡ false
      → pos 0 <ℤ debits (p ∷ ps)
      → debits (p ∷ ps) ≡ credits (p ∷ ps)
      → any (λ q. leb_ℤ q.amount (pos 0)) (p ∷ ps) ≡ false
      → validate (record { journal_id = i; postings = p ∷ ps }) ≡ ok tt
  unfolding validate
  checks-validate m d e a = ground arith

  validate-IsBalanced :
      validate (record { journal_id = i; postings = p ∷ ps }) ≡ ok tt → IsBalanced (p ∷ ps)
  validate-IsBalanced h =
      let (m, d, e, a) = validate-checks h in
      record {
        currency = p.currency;
        in_currency = (refl, All-map _ _ (same_currency p) ps (any-false _ ps m));
        positive = All-map _ _ is_positive (p ∷ ps) (any-false _ (p ∷ ps) a);
        moves = ground arith;
        equal = ground (arith, eq_ℤ_iff (debits (p ∷ ps)) (credits (p ∷ ps)));
      }

  IsBalanced-validate :
      IsBalanced (p ∷ ps) → validate (record { journal_id = i; postings = p ∷ ps }) ≡ ok tt
  IsBalanced-validate h =
      checks-validate
        (any-of_All _ ps
          (All-map _ _ (λ q e. other_currency p q (e ∙ sym h.in_currency.0)) ps h.in_currency.1))
        h.moves h.equal (any-of_All _ (p ∷ ps) (All-map _ _ not_positive (p ∷ ps) h.positive))

empty-not-IsBalanced : ¬ IsBalanced []
unfolding debits
empty-not-IsBalanced h = absurd (omega (arith, h.moves))

empty-refused :
    (i : Text) → validate (record { journal_id = i; postings = [] }) ≡ ok tt → IsBalanced []
unfolding validate
empty-refused i h = cc

-- A journal is accepted exactly when it obeys the double-entry rule.
pub validate_iff : (j : Journal) → (validate j ≡ ok tt) ↔ IsBalanced j.postings
validate_iff j = by_postings j.journal_id j.postings
  where
    by_postings :
        (i : Text) (ps : List Posting)
        → (validate (record { journal_id = i; postings = ps }) ≡ ok tt) ↔ IsBalanced ps
    by_postings i [] = (empty-refused i, λ h. absurd (empty-not-IsBalanced h))
    by_postings i (p ∷ ps) = (validate-IsBalanced i p ps, IsBalanced-validate i p ps)

-- Every journal of the ledger Lasts under its own id and obeys the double-entry rule.
pub record IsSound (s : InMemoryLedger) : Type 0 where
  pub at_id :
      (i : Text) (j : Journal) → lookup i s ≡ some j → (j.journal_id ≡ i) × IsBalanced j.postings

put-cases :
    (j : Journal) (s t : InMemoryLedger)
    → put j s ≡ ok t
    → ((lookup j.journal_id s ≡ some j) × (t ≡ s))
      ⊎ ((lookup j.journal_id s ≡ none) × (t ≡ insert j.journal_id j s))
unfolding put
put-cases j s t h = elim (Option-cases (lookup j.journal_id s)) [
  | inl new ↦ inr (new, ground arith)
  | inr (k, old) ↦ inl (ground (arith, journal_eq_iff k j), ground (arith, journal_eq_iff k j))
]

post-parts :
    (j : Journal) (s t : InMemoryLedger) → post j s ≡ ok t → (validate j ≡ ok tt) × (put j s ≡ ok t)
unfolding post
post-parts j s t h = ground arith

lookup-post :
    (j : Journal) (s t : InMemoryLedger) → post j s ≡ ok t → lookup j.journal_id t ≡ some j
lookup-post j s t h = elim (put-cases j s t (post-parts j s t h).1) [
  | inl (old, e) ↦ rw e old
  | inr (new, e) ↦ rw e (rw lookup-insert (rw beq_refl))
]

new_entry :
    (j : Journal) (s : InMemoryLedger)
    → IsSound s
    → IsBalanced j.postings
    → (i : Text) (k : Journal) → lookup i (insert j.journal_id j s) ≡ some k
    → (k.journal_id ≡ i) × IsBalanced k.postings
new_entry j s h b i k l = elim (Bool-cases (j.journal_id == i)) [
  | inl same ↦
      let e : k ≡ j = ground (arith, lookup-insert j.journal_id i j s, l, same) in
      rw e ((list_eq_iff j.journal_id i).0 same, b)
  | inr other ↦ h.at_id i k (ground (arith, lookup-insert j.journal_id i j s, l, other))
]

-- A post keeps the ledger sound, and whatever was in the ledger before it is still there.
pub post-IsSound :
    (j : Journal) (s t : InMemoryLedger)
    → IsSound s
    → post j s ≡ ok t
    → IsSound t
      × (lookup j.journal_id t ≡ some j)
      × ((i : Text) (k : Journal) → lookup i s ≡ some k → lookup i t ≡ some k)
post-IsSound j s t h e = elim (put-cases j s t (post-parts j s t e).1) [
  | inl (old, same) ↦ rw same (h, old, λ i k l. l)
  | inr (new, more) ↦ (
    record {
      at_id =
          λ i k l. new_entry j s h ((validate_iff j).0 (post-parts j s t e).0) i k (rw more at l);
    },
    lookup-post j s t e,
    λ i k l. rw more (ground (arith, lookup-insert j.journal_id i j s, list_eq_iff j.journal_id i)),
  )
]

-- Posting a journal again changes nothing.
pub post-twice : (j : Journal) (s t : InMemoryLedger) → post j s ≡ ok t → post j t ≡ ok t
unfolding post put
post-twice j s t h = ground (arith, post-parts j s t h, lookup-post j s t h, journal_eq_iff j j)

put-other :
    (j k : Journal) (s : InMemoryLedger)
    → lookup j.journal_id s ≡ some k
    → k ≢ j
    → put j s ≡ err (value_error "journal id conflict")
unfolding put
put-other j k s h n = ground (arith, journal_eq_iff k j)

-- Another journal under an id that is taken is refused.
pub post_conflict :
    (j k : Journal) (s : InMemoryLedger)
    → lookup j.journal_id s ≡ some k
    → k ≢ j
    → (e : Error) × (post j s ≡ err e)
unfolding post
post_conflict j k s h n = refused (validate j)
  where
    clash : put j s ≡ err (value_error "journal id conflict")
    clash = put-other j k s h n

    refused : (r : Result (Unit {0})) → (e : Error) × ((r >>= λ _. put j s) ≡ err e)
    refused (ok u) = (value_error "journal id conflict", clash)
    refused (err e) = (e, refl)
