-- ===== src/Auth.antt =====
-- reference/implementation/src/agent_pay/auth.py
use agent_pay.Prelude.{
  ℕ, Text, codes, is_space, is_empty, ◌==◌, List_eq, ℕ_eq, Bool, true, false, not, ◌||◌, Option,
  none, some, List, [], ◌∷◌, elem, if◌then◌else◌, Result, ok, err,
}
use agent_pay.Prelude.Errors.{Error.permission_error, raise_if, ◌>>=◌, ◌>>◌}
use agent_pay.Json.{Json, text_of}

-- The fields that the program uses.
pub record Principal : Type 0 where
  pub agent_id : Text
  pub account_id : Text
  pub scopes : List Text
  pub subject : Option Text
  pub issuer : Option Text

-- What a token that PyJWT accepts claims; `sub` and `iss` are required.
pub record Claims : Type 0 where
  pub agent_id : Option Json
  pub account_id : Option Json
  pub scope : Option Json
  pub sub : Text
  pub iss : Text

-- The environment, and PyJWT's check of a token by the key set at a URL, for an audience and an
-- issuer.
pub record Verifier : Type 0 where
  pub getenv : Text → Option Text
  pub decode : Text → Text → Text → Text → Option Claims

-- os.getenv(key, default)
abbrev or_default : Option Text → Text → Text
or_default none d = d
or_default (some t) d = t

abbrev filled : Option Text → Option Text
filled (some (c ∷ t)) = some (c ∷ t)
filled other = none

abbrev or_refuse : {A : Type 0} → Option A → Result A → Result A
or_refuse none e = e
or_refuse (some a) e = ok a

abbrev starts_word : Text → Bool
starts_word [] = false
starts_word (c ∷ t) = not (is_space c)

-- A character before the words of the rest of the text.
abbrev joined : ℕ → Bool → List Text → List Text
joined c true (w ∷ ws) = (c ∷ w) ∷ ws
joined c other ws = (c ∷ []) ∷ ws

-- `str.split()`
unfoldable pub split : Text → List Text
unfolding is_space
split [] = []
split (c ∷ t) = let rest = split t in if is_space c then rest else joined c (starts_word t) rest

-- frozenset(raw_scopes.split()) if isinstance(raw_scopes, str) else frozenset()
abbrev scopes_of : Option Json → List Text
scopes_of scope = elim (text_of scope) [ none ↦ [] | some t ↦ split t ]

module _ (verifier : Verifier) where
  abbrev setting : Text → Result Text
  setting key = elim (filled (verifier.getenv key)) [
    | none ↦ err (permission_error "OIDC authentication is not fully configured")
    | some t ↦ ok t
  ]

  -- `_oidc_principal`
  unfoldable pub oidc_principal : Text → Result Principal
  oidc_principal token = do
    jwks_url ← setting (codes "AGENT_PAY_OIDC_JWKS_URL")
    issuer ← setting (codes "AGENT_PAY_OIDC_ISSUER")
    audience ← setting (codes "AGENT_PAY_OIDC_AUDIENCE")
    claims ←
        or_refuse (verifier.decode jwks_url token audience issuer)
          (err (permission_error "invalid OIDC bearer token"))
    agent_id ←
        or_refuse (text_of claims.agent_id)
          (err (permission_error "OIDC token is missing Agent-Pay identity claims"))
    account_id ←
        or_refuse (text_of claims.account_id)
          (err (permission_error "OIDC token is missing Agent-Pay identity claims"))
    ok (record {
      agent_id = agent_id;
      account_id = account_id;
      scopes = scopes_of claims.scope;
      subject = some claims.sub;
      issuer = some claims.iss;
    })

  abbrev mode : Text
  mode = or_default (verifier.getenv (codes "AGENT_PAY_AUTH_MODE")) (codes "strict")

  -- `resolve_bearer` in development mode.
  unfoldable pub development_principal : Text → Result Principal
  development_principal token = do
    raise_if
        (not (
          token
          == or_default (verifier.getenv (codes "AGENT_PAY_DEV_TOKEN"))
              (codes "local-agent-token")))
        (permission_error "invalid development bearer token")
    agent_id ←
        or_refuse (filled (verifier.getenv (codes "AGENT_PAY_DEV_AGENT_ID")))
          (err (permission_error "development principal is not configured"))
    account_id ←
        or_refuse (filled (verifier.getenv (codes "AGENT_PAY_DEV_ACCOUNT_ID")))
          (err (permission_error "development principal is not configured"))
    ok (record {
      agent_id = agent_id;
      account_id = account_id;
      scopes = codes "payments:create" ∷ codes "payments:read" ∷ [];
      subject = none;
      issuer = none;
    })

  abbrev principal_of : Text → Result Principal
  principal_of token =
      if mode == codes "development"
      then development_principal token
      else if mode == codes "oidc"
      then oidc_principal token
      else err (permission_error "production authentication adapter is not configured")

  -- `resolve_bearer`
  unfoldable pub resolve_bearer : Text → Result Principal
  resolve_bearer token = do
    raise_if (is_empty token) (permission_error "bearer token is required")
    principal_of token

  abbrev is_approval_token : Option Text → Bool
  is_approval_token none = false
  is_approval_token (some token) =
      token
      == or_default (verifier.getenv (codes "AGENT_PAY_APPROVAL_TOKEN"))
          (codes "local-approval-token")

  -- `resolve_approval_bearer`
  unfoldable pub resolve_approval_bearer : Option Text → Result Text
  resolve_approval_bearer token = do
    raise_if (not (mode == codes "development"))
        (permission_error "production approval authentication adapter is not configured")
    raise_if (not (is_approval_token token))
        (permission_error "invalid development approval bearer token")
    ok (or_default (verifier.getenv (codes "AGENT_PAY_APPROVAL_ACTOR")) (codes "local-user"))

-- `require_agent`
unfoldable pub require_agent : Principal → Text → Text → Result (Unit {0})
require_agent p agent_id account_id = do
  raise_if (not (p.agent_id == agent_id) || not (p.account_id == account_id))
      (permission_error "authenticated principal does not match payment actor")
  raise_if (not (elem (codes "payments:create") p.scopes))
      (permission_error "principal lacks payments:create scope")
