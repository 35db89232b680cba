-- ===== src/Webhooks/Signed.antt =====
-- Bodies that are not signed with the provider's secret.
use agent_pay.Prelude.{
  Error, ok, true, if◌then◌else◌, ◌||◌, Text, codes, List_eq, list_eq_iff, ℕ_eq, false, is_empty,
  Option, none, some, err, [], ◌≡◌, ◌≢◌, ◌⊎◌, ap, ◌==◌, ◌∷◌, inl, inr, Bool-cases, refl, arith,
}
use agent_pay.Prelude.Errors.{Error.http_error}
use agent_pay.Prelude.Exec.{◌>>=◌}
use agent_pay.ProviderEvents.{is_ascii, not_ascii, remove_prefix, verify_hmac_signature}
use agent_pay.Store.{Session, on_db}
use agent_pay.Webhooks.Reading.{Runtime, Delivery, secret_for, is_signed, read_event, read_report}
use agent_pay.Webhooks.{provider_webhook, provider_settlement}

module _ (runtime : Runtime) where
  -- The provider has no secret, or the signature, if there is one, is not the HMAC of the body.
  abbrev pub IsForged : Delivery → Type 0
  IsForged d =
      secret_for runtime d.provider_name ≡ []
      ⊎ ((signature : Text)
          → d.signature ≡ some signature
          → remove_prefix (codes "sha256=") signature
            ≢ runtime.hmac (secret_for runtime d.provider_name) d.body)

  -- Some text of the signature is not ASCII.
  abbrev pub IsUnreadable : Delivery → Type 0
  IsUnreadable d =
      (signature : Text) × (d.signature ≡ some signature)
      × (is_ascii (remove_prefix (codes "sha256=") signature) ≡ false)

  differ :
      {body : Text} (signature secret : Text)
      → (is_empty secret || is_empty signature) ≡ false
      → secret ≡ []
        ⊎ ((x : Text)
            → some signature ≡ some x
            → remove_prefix (codes "sha256=") x ≢ runtime.hmac secret body)
      → (runtime.hmac secret body == remove_prefix (codes "sha256=") signature) ≡ false
  differ {body} signature [] there h = cc
  differ {body} signature (c ∷ secret) there (inl missing) = cc
  differ {body} signature (c ∷ secret) there (inr differs) = ground (
    arith,
    differs signature refl,
    list_eq_iff (runtime.hmac (c ∷ secret) body) (remove_prefix (codes "sha256=") signature),
  )

  signature_lem :
      (d : Delivery) (o : Option Text) (secret : Text)
      → d.signature ≡ o
      → is_ascii (runtime.hmac secret d.body) ≡ true
      → secret ≡ []
        ⊎ ((signature : Text)
            → o ≡ some signature
            → remove_prefix (codes "sha256=") signature ≢ runtime.hmac secret d.body)
      → (elim o [
        | none ↦ ok false
        | some signature ↦
            if is_empty secret || is_empty signature
            then ok false
            else verify_hmac_signature runtime.hmac d.body signature secret
      ]
          ≡ ok false)
        ⊎ (elim o [
          | none ↦ ok false
          | some signature ↦
              if is_empty secret || is_empty signature
              then ok false
              else verify_hmac_signature runtime.hmac d.body signature secret
        ]
            ≡ err not_ascii)
          × IsUnreadable d
  unfolding verify_hmac_signature
  signature_lem d none secret same hex h = inl refl
  signature_lem d (some signature) secret same hex h =
      elim (Bool-cases (is_empty secret || is_empty signature)) [
        | inl missing ↦ inl (rw missing refl)
        | inr there ↦ elim (Bool-cases (is_ascii (remove_prefix (codes "sha256=") signature))) [
          | inl readable ↦
              inl (rw there (rw hex (rw readable (ap ok (differ signature secret there h)))))
          | inr unreadable ↦
              inr (rw there (rw hex (rw unreadable refl)), (signature, same, unreadable))
        ]
      ]

  is_signed-forged :
      (d : Delivery)
      → is_ascii (runtime.hmac (secret_for runtime d.provider_name) d.body) ≡ true
      → IsForged d
      → (is_signed runtime d ≡ ok false) ⊎ (is_signed runtime d ≡ err not_ascii) × IsUnreadable d
  unfolding is_signed
  is_signed-forged d hex h =
      signature_lem d d.signature (secret_for runtime d.provider_name) refl hex h

  -- Where HMACs are ASCII texts, both handlers refuse a body whose signature is missing or is not the
  -- HMAC of the body under the provider's secret, and every body where the provider has no secret:
  -- with 401, or with the TypeError of the comparison if the signature is not ASCII. Nothing is
  -- parsed or written.
  pub forged-refused :
      {P : Type 0} (d : Delivery) (s : Session P)
      → ((secret body : Text) → is_ascii (runtime.hmac secret body) ≡ true)
      → IsForged d
      → (e : Error) × (provider_webhook runtime d s ≡ (err e, s))
        × (provider_settlement runtime d s ≡ (err e, s))
        × ((e ≡ http_error 401 "invalid provider signature") ⊎ (e ≡ not_ascii) × IsUnreadable d)
  unfolding provider_webhook provider_settlement read_event read_report on_db ◌>>=◌
  forged-refused d s hex h = elim (is_signed-forged d (hex _ _) h) [
    | inl unsigned ↦ (_, rw unsigned refl, rw unsigned refl, inl refl)
    | inr (unreadable, k) ↦ (_, rw unreadable refl, rw unreadable refl, inr (refl, k))
  ]
