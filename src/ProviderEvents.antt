-- ===== src/ProviderEvents.antt =====
-- reference/implementation/src/agent_pay/provider_events.py
pub mod Redaction
pub mod Seen
mod Tests
use agent_pay.Prelude.{
  Text, codes, lower, ◌==◌, List_eq, ℕ_eq, elem, Bool, true, false, ◌&&◌, ◌||◌, Option, none, some,
  ℕ, ltb, Error, Result, ok, err, List, [], ◌∷◌, if◌then◌else◌, find_row, append_row,
}
use agent_pay.Prelude.Errors.{Error.runtime_error}
use agent_pay.Prelude.Exec.{Exec, pure, gets, ◌>>=◌, ◌>>◌, update}
use agent_pay.Json.{
  Json, Values, Fields, text, array, object, nil, cons, empty, field, Json.null, Json.true,
  Json.false, number,
}
use agent_pay.Store.{Db, ProviderEvent, ProcessingStatus, fresh_id}

-- _SECRET_KEYS
abbrev pub secret_keys : List Text
secret_keys =
    codes "pan"
    ∷ codes "card_number"
    ∷ codes "cvv"
    ∷ codes "cvc"
    ∷ codes "pin"
    ∷ codes "private_key"
    ∷ codes "secret"
    ∷ codes "api_key"
    ∷ codes "access_token"
    ∷ codes "refresh_token"
    ∷ codes "authorization"
    ∷ []

unfoldable pub is_secret : Text → Bool
unfolding lower
is_secret key = elem (lower key) secret_keys

abbrev pub redacted : Json
redacted = text (codes "[REDACTED]")

unfoldable mutual
  -- `sanitize_payload`
  pub sanitize_payload : Json → Json
  sanitize_payload Json.null = Json.null
  sanitize_payload Json.true = Json.true
  sanitize_payload Json.false = Json.false
  sanitize_payload (number n) = number n
  sanitize_payload (text t) = text t
  sanitize_payload (array vs) = array (sanitize_values vs)
  sanitize_payload (object fs) = object (sanitize_fields fs)

  pub sanitize_values : Values → Values
  sanitize_values nil = nil
  sanitize_values (cons v vs) = cons (sanitize_payload v) (sanitize_values vs)

  pub sanitize_fields : Fields → Fields
  sanitize_fields empty = empty
  sanitize_fields (field k v fs) =
      field k (if is_secret k then redacted else sanitize_payload v) (sanitize_fields fs)

-- What `record` is given, and the columns that it computes.
abbrev pub is_event : Text → Text → ProviderEvent → Bool
is_event provider_name event_id e =
    e.provider_name == provider_name && e.provider_event_id == event_id

-- INSERT ... ON CONFLICT (provider_name, provider_event_id) DO NOTHING RETURNING id
unfoldable pub insert_event : Option (ℕ × ProviderEvent) → ProviderEvent → Exec Db (Option ℕ)
insert_event (some existing) e = pure none
insert_event none e = do
  id ← fresh_id
  update (λ db. record db { provider_events = append_row id e db.provider_events })
  pure (some id)

-- `digest` is the SHA-256 digest of the canonical JSON text.
module _ (digest : Json → Text) where
  abbrev pub new_event : Text → Text → Text → Json → Bool → ProviderEvent
  new_event provider_name event_id event_type payload signature_valid = record {
    provider_name = provider_name;
    provider_event_id = event_id;
    event_type = event_type;
    signature_valid = signature_valid;
    payload = sanitize_payload payload;
    payload_digest = digest (sanitize_payload payload);
    processing_status = ProcessingStatus.received;
    provider_operation_id = none;
    processed_at = none;
  }

  -- `ProviderEventRepository.record`
  unfoldable pub record_event : Text → Text → Text → Json → Bool → Exec Db (Option ℕ)
  record_event provider_name event_id event_type payload signature_valid = do
    existing ← gets (λ db. find_row (is_event provider_name event_id) db.provider_events)
    insert_event existing (new_event provider_name event_id event_type payload signature_valid)

-- The rest of a text after a prefix.
abbrev pub after_prefix : Text → Text → Option Text
after_prefix [] t = some t
after_prefix (c ∷ p) [] = none
after_prefix (c ∷ p) (d ∷ t) = if c == d then after_prefix p t else none

-- `str.removeprefix`
unfoldable pub remove_prefix : Text → Text → Text
remove_prefix prefix t = elim (after_prefix prefix t) [ none ↦ t | some rest ↦ rest ]

-- `str.isascii`
unfoldable pub is_ascii : Text → Bool
is_ascii [] = true
is_ascii (c ∷ t) = ltb c 128 && is_ascii t

abbrev pub not_ascii : Error
not_ascii = runtime_error "comparing strings with non-ASCII characters is not supported"

-- `hmac.compare_digest` of two texts, which raises a `TypeError` where one is not ASCII.
abbrev pub compare_digest : Text → Text → Result Bool
compare_digest a b = if is_ascii a && is_ascii b then ok (a == b) else err not_ascii

-- `verify_hmac_signature`; `hmac` is HMAC-SHA256 of a secret and a body, in hexadecimal digits.
unfoldable pub verify_hmac_signature : (Text → Text → Text) → Text → Text → Text → Result Bool
verify_hmac_signature hmac payload signature secret =
    compare_digest (hmac secret payload) (remove_prefix (codes "sha256=") signature)
