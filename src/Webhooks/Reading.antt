-- ===== src/Webhooks/Reading.antt =====
-- reference/implementation/src/agent_pay/webhooks.py: what the handlers read from a request before
-- they open the database.
use agent_pay.Prelude.{
  ℕ, leb, ℤ, pos, ◌-ℤ◌, leb_ℤ, ltb_ℤ, Text, codes, upper, is_empty, ◌==◌, List_eq, ℕ_eq, Bool, true,
  false, not, ◌&&◌, ◌||◌, Option, none, some, [], ◌∷◌, ◌++◌, map, if◌then◌else◌, Error, Result, ok,
  err,
}
use agent_pay.Prelude.Errors.{Error.http_error, Error.runtime_error, raise_if, ◌>>=◌, ◌>>◌}
use agent_pay.Json.{
  Json, Fields, text, array, object, nil, cons, empty, field, Json.true, Json.false, number, get,
  text_of,
}
use agent_pay.ProviderEvents.{verify_hmac_signature}
use agent_pay.Settlement.{Decimal, Report}

-- A `datetime` in seconds since the epoch, without or with a time zone.
pub data Instant : Type 0 where
  naive aware : ℤ → Instant

-- What the handlers call outside the program: the environment, HMAC-SHA256 of a secret and a body,
-- `json.loads`, `int`, `Decimal`, `datetime.fromisoformat`, and the digest of a JSON value. A text of
-- NaN or of an infinity, which `ingest` or its INSERT refuses, counts as no `Decimal`.
pub record Runtime : Type 0 where
  pub getenv : Text → Option Text
  pub hmac : Text → Text → Text
  pub loads : Text → Option Json
  pub to_int : Text → Option ℤ
  pub to_decimal : Text → Option Decimal
  pub from_iso_format : Text → Option Instant
  pub digest : Json → Text

-- The arguments of `provider_webhook` and `provider_settlement`.
pub record Delivery : Type 0 where
  pub provider_name : Text
  pub body : Text
  pub signature : Option Text
  pub correlation_id : Option Text

-- What `provider_webhook` reads from a body that it accepts.
pub record Event : Type 0 where
  pub provider_name : Text
  pub event_id : Text
  pub event_type : Text
  pub provider_reference : Option Text
  pub payload : Json

-- `a or b or ""` for texts that may be missing.
abbrev first_text : Option Text → Option Text → Text
first_text none none = []
first_text none (some t) = t
first_text (some []) none = []
first_text (some []) (some t) = t
first_text (some (c ∷ t)) other = c ∷ t

abbrev is_alnum : ℕ → Bool
is_alnum c = leb 48 c && leb c 57 || leb 65 c && leb c 90 || leb 97 c && leb c 122

abbrev name_char : ℕ → ℕ
name_char c = if is_alnum c then c else 95

-- A number literal of value zero: no digit but 0 before the exponent.
abbrev is_zero : Text → Bool
is_zero [] = true
is_zero (c ∷ t) = c == 101 || c == 69 || (c == 48 || c == 46 || c == 45) && is_zero t

-- The truth value of a JSON value.
abbrev is_true : Json → Bool
is_true Json.null = false
is_true Json.true = true
is_true Json.false = false
is_true (number n) = not (is_zero n)
is_true (text t) = not (is_empty t)
is_true (array nil) = false
is_true (array (cons v vs)) = true
is_true (object empty) = false
is_true (object (field k v fs)) = true

-- `a or b` for the values of two keys.
abbrev or_value : Option Json → Option Json → Option Json
or_value none other = other
or_value (some v) other = if is_true v then some v else other

-- t.replace("Z", "+00:00")
abbrev replace_z : Text → Text
replace_z [] = []
replace_z (c ∷ t) = if c == 90 then codes "+00:00" ++ replace_z t else c ∷ replace_z t

abbrev seconds : Instant → ℤ
seconds (naive n) = n
seconds (aware n) = n

abbrev distance : ℤ → ℤ → ℤ
distance a b = if leb_ℤ a b then b -ℤ a else a -ℤ b

abbrev or_error : {A : Type 0} → Option A → Error → Result A
or_error none e = err e
or_error (some a) e = ok a

abbrev fields_of : Json → Option Fields
fields_of (object fs) = some fs
fields_of other = none

-- outcome_map.get(event_type)
abbrev pub outcome_of : Text → Option Text
outcome_of event_type =
    if event_type == codes "payment.succeeded"
    then some (codes "SUCCEEDED")
    else if event_type == codes "payment.failed"
    then some (codes "FAILED")
    else none

abbrev present : Option Text → Option Text
present (some (c ∷ t)) = some (c ∷ t)
present other = none

module _ (runtime : Runtime) where
  -- `_secret_for`
  unfoldable pub secret_for : Text → Text
  unfolding upper
  secret_for provider_name =
      first_text
        (runtime.getenv
          (codes "AGENT_PAY_PROVIDER_WEBHOOK_SECRET_" ++ map name_char (upper provider_name)))
        (runtime.getenv (codes "AGENT_PAY_PROVIDER_WEBHOOK_SECRET"))

  abbrev replay_window : Text
  replay_window = elim (runtime.getenv (codes "AGENT_PAY_WEBHOOK_REPLAY_WINDOW_SECONDS")) [
    | none ↦ codes "0"
    | some t ↦ t
  ]

  unfoldable pub enforce_age : ℤ → Fields → ℕ → Result (Unit {0})
  enforce_age window payload now = do
    occurred_at ←
        or_error
          (text_of (or_value (get (codes "occurred_at") payload) (get (codes "timestamp") payload)))
          (http_error 400 "provider timestamp is required")
    parsed ←
        or_error (runtime.from_iso_format (replace_z occurred_at))
          (http_error 400 "invalid provider timestamp")
    raise_if (ltb_ℤ window (distance (pos now) (seconds parsed)))
        (http_error 400 "provider event is outside replay window")

  -- `_enforce_replay_window`
  unfoldable pub enforce_replay_window : Fields → ℕ → Result (Unit {0})
  enforce_replay_window payload now = elim (runtime.to_int replay_window) [
    | none ↦ err (http_error 500 "invalid webhook replay-window configuration")
    | some window ↦ elim (leb_ℤ window (pos 0)) [
      | true ↦ ok tt
      | false ↦ enforce_age window payload now
    ]
  ]

  -- The signature is there, the provider has a secret, and the two agree.
  unfoldable pub is_signed : Delivery → Result Bool
  is_signed d = elim d.signature [
    | none ↦ ok false
    | some signature ↦
        if is_empty (secret_for d.provider_name) || is_empty signature
        then ok false
        else verify_hmac_signature runtime.hmac d.body signature (secret_for d.provider_name)
  ]

  -- `provider_webhook` before it opens the database.
  unfoldable pub read_event : Delivery → ℕ → Result Event
  read_event d now = do
    signed ← is_signed d
    raise_if (not signed) (http_error 401 "invalid provider signature")
    value ← or_error (runtime.loads d.body) (http_error 400 "invalid JSON payload")
    payload ← or_error (fields_of value) (http_error 400 "provider payload must be an object")
    enforce_replay_window payload now
    event_id ←
        or_error (text_of (get (codes "event_id") payload))
          (http_error 400 "event_id and event_type are required")
    event_type ←
        or_error (text_of (get (codes "event_type") payload))
          (http_error 400 "event_id and event_type are required")
    ok (record {
      provider_name = d.provider_name;
      event_id = event_id;
      event_type = event_type;
      provider_reference = present (text_of (get (codes "provider_reference") payload));
      payload = value;
    })

  abbrev required : Text → Fields → Result Text
  required key payload =
      or_error (present (text_of (get key payload))) (
        http_error 400 "settlement_reference, provider_reference, amount and currency are required")

  -- A timestamp of a report: other values are no parameters of the INSERT.
  abbrev timestamp : Option Json → Result (Option Text)
  timestamp none = ok none
  timestamp (some Json.null) = ok none
  timestamp (some (text t)) = ok (some t)
  timestamp (some other) = err (runtime_error "timestamp")

  -- `provider_settlement` before it opens the database, and the `Decimal` that `ingest` makes. A list
  -- or a number has no `get`.
  unfoldable pub read_report : Delivery → Result Report
  read_report d = do
    signed ← is_signed d
    raise_if (not signed) (http_error 401 "invalid provider signature")
    value ← or_error (runtime.loads d.body) (http_error 400 "invalid JSON payload")
    payload ← or_error (fields_of value) (runtime_error "no attribute 'get'")
    settlement_reference ← required (codes "settlement_reference") payload
    provider_reference ← required (codes "provider_reference") payload
    amount ← required (codes "amount") payload
    currency ← required (codes "currency") payload
    value ← or_error (runtime.to_decimal amount) (runtime_error "invalid decimal")
    reported_at ← timestamp (get (codes "reported_at") payload)
    settled_at ← timestamp (get (codes "settled_at") payload)
    ok (record {
      provider_name = d.provider_name;
      settlement_reference = settlement_reference;
      provider_reference = provider_reference;
      amount = value;
      currency = currency;
      reported_at = reported_at;
      settled_at = settled_at;
    })
