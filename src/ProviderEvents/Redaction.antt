-- ===== src/ProviderEvents/Redaction.antt =====
-- What the sanitising of payloads takes out, and what it leaves.
use mathlib.Core.Path.{subst}
use agent_pay.Prelude.{true, false, ◌≡◌, ◌↔◌, refl, ap, Bool-cases, inl, inr, ◌⊎◌}
use agent_pay.Json.{
  Json, Values, Fields, text, array, object, nil, cons, empty, field, Json.true, Json.false, number,
}
use agent_pay.ProviderEvents.{
  is_secret, redacted, sanitize_payload, sanitize_values, sanitize_fields,
}

-- At every depth, the value under a secret key is the text that stands for what is taken out.
unfoldable mutual
  pub IsRedacted : Json → Type 0
  IsRedacted Json.null = Unit
  IsRedacted Json.true = Unit
  IsRedacted Json.false = Unit
  IsRedacted (number n) = Unit
  IsRedacted (text t) = Unit
  IsRedacted (array vs) = AllRedacted vs
  IsRedacted (object fs) = NoSecrets fs

  pub AllRedacted : Values → Type 0
  AllRedacted nil = Unit
  AllRedacted (cons v vs) = IsRedacted v × AllRedacted vs

  pub NoSecrets : Fields → Type 0
  NoSecrets empty = Unit
  NoSecrets (field k v fs) =
      ((is_secret k ≡ true) × (v ≡ redacted) ⊎ (is_secret k ≡ false) × IsRedacted v) × NoSecrets fs

mutual
  unfolding sanitize_payload sanitize_values sanitize_fields IsRedacted AllRedacted NoSecrets

  sanitize_payload-IsRedacted : (v : Json) → IsRedacted (sanitize_payload v)
  sanitize_payload-IsRedacted Json.null = tt
  sanitize_payload-IsRedacted Json.true = tt
  sanitize_payload-IsRedacted Json.false = tt
  sanitize_payload-IsRedacted (number n) = tt
  sanitize_payload-IsRedacted (text t) = tt
  sanitize_payload-IsRedacted (array vs) = sanitize_values-AllRedacted vs
  sanitize_payload-IsRedacted (object fs) = sanitize_fields-NoSecrets fs

  sanitize_values-AllRedacted : (vs : Values) → AllRedacted (sanitize_values vs)
  sanitize_values-AllRedacted nil = tt
  sanitize_values-AllRedacted (cons v vs) =
      (sanitize_payload-IsRedacted v, sanitize_values-AllRedacted vs)

  sanitize_fields-NoSecrets : (fs : Fields) → NoSecrets (sanitize_fields fs)
  sanitize_fields-NoSecrets empty = tt
  sanitize_fields-NoSecrets (field k v fs) = (
    elim (Bool-cases (is_secret k)) [
      | inl s ↦ inl (s, rw s)
      | inr n ↦ inr (n, rw n (sanitize_payload-IsRedacted v))
    ],
    sanitize_fields-NoSecrets fs,
  )

mutual
  unfolding sanitize_payload sanitize_values sanitize_fields IsRedacted AllRedacted NoSecrets

  IsRedacted-fixed : (v : Json) → IsRedacted v → sanitize_payload v ≡ v
  IsRedacted-fixed Json.null h = refl
  IsRedacted-fixed Json.true h = refl
  IsRedacted-fixed Json.false h = refl
  IsRedacted-fixed (number n) h = refl
  IsRedacted-fixed (text t) h = refl
  IsRedacted-fixed (array vs) h = ap array (AllRedacted-fixed vs h)
  IsRedacted-fixed (object fs) h = ap object (NoSecrets-fixed fs h)

  AllRedacted-fixed : (vs : Values) → AllRedacted vs → sanitize_values vs ≡ vs
  AllRedacted-fixed nil h = refl
  AllRedacted-fixed (cons v vs) h = cc (IsRedacted-fixed v h.0, AllRedacted-fixed vs h.1)

  NoSecrets-fixed : (fs : Fields) → NoSecrets fs → sanitize_fields fs ≡ fs
  NoSecrets-fixed empty h = refl
  NoSecrets-fixed (field k v fs) (inl (s, e), h) = rw s (cc (NoSecrets-fixed fs h))
  NoSecrets-fixed (field k v fs) (inr (n, r), h) =
      rw n (cc (IsRedacted-fixed v r, NoSecrets-fixed fs h))

-- A sanitised payload has no value under a secret key, at any depth, and sanitising changes nothing
-- exactly when there is none.
pub sanitize_payload-redacts :
    (v : Json) → IsRedacted (sanitize_payload v) × ((sanitize_payload v ≡ v) ↔ IsRedacted v)
sanitize_payload-redacts v = (
  sanitize_payload-IsRedacted v,
  (λ same. subst IsRedacted same (sanitize_payload-IsRedacted v), IsRedacted-fixed v),
)
