-- ===== src/Service/Replays.antt =====
-- One result for each idempotency key.
use agent_pay.Prelude.{
  Text, List_eq, ℕ_eq, eq_ℤ_iff, beq_refl, true, false, Option, none, some, lookup, insert,
  lookup-insert, Result, ok, err, ◌≡◌, refl, ◌∙◌, arith,
}
use agent_pay.Prelude.Errors.{Error.value_error}
use agent_pay.Prelude.Exec.{pure, gets, ◌>>=◌, update, raise_if}
use agent_pay.Prelude.Exec.Keeps.{Ensures, bind-Ensures, weaken-Ensures, raise_if-Ensures}
use agent_pay.Domain.{PaymentIntent, Fingerprint, fingerprint}
use agent_pay.Provider.{PaymentProvider}
use agent_pay.Service.{
  PaymentService, PaymentResult, create_payment, resume, decided, same_fingerprint,
}

same_fingerprint_refl : (f : Fingerprint) → same_fingerprint f f ≡ true
same_fingerprint_refl (a, d, v, c, p) = simp (beq_refl, (eq_ℤ_iff v v).1 refl)

anything : {S A : Type 0} (r : Result A × S) → Ensures (λ a s. Unit {0}) r
anything (ok a, s) = tt
anything (err e, s) = tt

module _ {P : Type 0} (provider : PaymentProvider P Text Text)
    (selector : Option (Text → Text → Result (PaymentProvider P Text Text)))
    (intent : PaymentIntent) where
  -- An intent whose key and fingerprint are recorded gets the recorded result. The budget, the
  -- provider and the record stay as they are.
  pub create_payment-replays :
      (s : PaymentService P) (f : Fingerprint) (r : PaymentResult)
      → lookup intent.idempotency_key s.idempotency ≡ some (f, r)
      → same_fingerprint f (fingerprint intent) ≡ true
      → create_payment provider selector intent s ≡ (ok r, s)
  unfolding create_payment resume ◌>>=◌ raise_if
  create_payment-replays s f r there same = rw (there, same)

  -- A key that is recorded for another intent is refused, and nothing changes.
  pub create_payment-conflict :
      (s : PaymentService P) (f : Fingerprint) (r : PaymentResult)
      → lookup intent.idempotency_key s.idempotency ≡ some (f, r)
      → same_fingerprint f (fingerprint intent) ≡ false
      → create_payment provider selector intent s
        ≡ (err (value_error "idempotency key conflict"), s)
  unfolding create_payment resume ◌>>=◌ raise_if
  create_payment-conflict s f r there other = rw (there, other)

  abbrev Recorded : PaymentResult → PaymentService P → Type 0
  Recorded r t =
      (f : Fingerprint) × (lookup intent.idempotency_key t.idempotency ≡ some (f, r))
      × (same_fingerprint f (fingerprint intent) ≡ true)

  abbrev recorded_in : PaymentResult → PaymentService P → PaymentService P
  recorded_in r s = record s {
    idempotency = insert intent.idempotency_key (fingerprint intent, r) s.idempotency;
  }

  recorded_in-Recorded : (r : PaymentResult) (s : PaymentService P) → Recorded r (recorded_in r s)
  recorded_in-Recorded r s = (
    fingerprint intent,
    lookup-insert _ _ _ _ ∙ rw beq_refl,
    same_fingerprint_refl (fingerprint intent),
  )

  resume-records :
      (s : PaymentService P) (o : Option (Fingerprint × PaymentResult))
      → lookup intent.idempotency_key s.idempotency ≡ o
      → Ensures Recorded (resume provider selector o intent s)
  unfolding resume pure update gets
  resume-records s (some (f, r)) e = raise_if-Ensures _ _ _ _ s (λ same. (f, e, ground arith))
  resume-records s none e =
      bind-Ensures (λ d t. Unit {0}) _ _ _ s tt
        (λ d t u.
          bind-Ensures (λ r w. Unit {0}) _ (decided provider selector intent d) _ t
            (anything (decided provider selector intent d t))
            (λ r w v.
              bind-Ensures (λ x y. Recorded r y) _ (update (recorded_in r)) _ w
                (recorded_in-Recorded r w) (λ x y h. h)))

  -- A call that has returned can be repeated: it returns the same result, and the budget, the
  -- provider and the record stay as they are.
  pub create_payment-twice :
      (s : PaymentService P)
      → Ensures
          (λ r t. create_payment provider selector intent t ≡ (ok r, t))
          (create_payment provider selector intent s)
  unfolding create_payment gets ◌>>=◌
  create_payment-twice s =
      weaken-Ensures _ _
        (resume provider selector (lookup intent.idempotency_key s.idempotency) intent s)
        (resume-records s (lookup intent.idempotency_key s.idempotency) refl)
        (λ r t h. create_payment-replays t h.0 r h.1 h.2)
