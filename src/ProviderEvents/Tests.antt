-- ===== src/ProviderEvents/Tests.antt =====
-- An instance for the sanitising of payloads.
use agent_pay.Prelude.{codes, ◌≡◌, ◌↔◌}
use agent_pay.Json.{Json, object, array, cons, nil, field, Fields}
use agent_pay.ProviderEvents.{sanitize_payload}
use agent_pay.ProviderEvents.Redaction.{IsRedacted, sanitize_payload-redacts}

-- {"card": [{"CVV": "123"}], "id": "7"}
abbrev card : Json
card = object (
    field (codes "card")
      (array (cons (object (field (codes "CVV") (Json.text (codes "123")) Fields.empty)) nil))
      (field (codes "id") (Json.text (codes "7")) Fields.empty))

sanitize_payload-redacts_example :
    IsRedacted (sanitize_payload card) × ((sanitize_payload card ≡ card) ↔ IsRedacted card)
sanitize_payload-redacts_example = sanitize_payload-redacts card
