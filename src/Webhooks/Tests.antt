-- ===== src/Webhooks/Tests.antt =====
-- Runs and instances for the webhook handlers.
use agent_pay.Prelude.{
  Text, codes, none, some, ok, err, [], ◌∷◌, ◌≡◌, refl, ℕ_eq, lookup, modify, find_row, find_last,
  list_eq, eq_of_discrete, upper, strip, ◌+ℤ◌, ◌-ℤ◌, inr, Error, true, ◌⊎◌,
}
use agent_pay.Prelude.Errors.{Error.http_error}
use agent_pay.Prelude.Exec.{◌>>=◌, update, raise_if}
use agent_pay.Journals.{insert_posting, insert_postings, insert_journal, post_new, post_journal}
use agent_pay.Json.{Json, get}
use agent_pay.BudgetRepository.{consume, update_budget}
use agent_pay.Lifecycle.{set_transaction}
use agent_pay.ProviderEvents.{
  remove_prefix, is_ascii, not_ascii, verify_hmac_signature, record_event, insert_event, is_secret,
  sanitize_payload,
}
use agent_pay.Resolution.{
  Resolved, resolve, resolve_event, target_of, apply, succeed, settle_charge, insert_capture,
  end_operation, end_payment, mark_processed,
}
use agent_pay.Samples.{runtime, delivery, awaiting, session}
use agent_pay.Provider.{MockProvider}
use agent_pay.Store.{
  Session, Key, Status, Status-discrete, OperationType-discrete, ReservationStatus-discrete,
  ProcessingStatus-discrete, TransactionStatus-discrete, Side-discrete, KeyKind-discrete, key_eq,
  on_db, unit_of_work, fresh_id,
}
use agent_pay.Webhooks.Signed.{IsForged, IsUnreadable, forged-refused}
use agent_pay.Webhooks.{
  provider_settlement, concluded, duplicate, attach, ledger_accounts, conclude, act, after_record,
  handle_event, provider_webhook,
}
use agent_pay.Webhooks.Once.{deliver_all, provider_webhook-once, provider_webhook-rollback}
use agent_pay.Webhooks.Reading.{
  Event, Delivery, secret_for, is_signed, enforce_replay_window, read_event,
}

abbrev event : Text → Event
event id = record {
  provider_name = codes "mock";
  event_id = id;
  event_type = codes "payment.succeeded";
  provider_reference = some (codes "ref_1");
  payload = elim (runtime.loads id) [ none ↦ Json.null | some v ↦ v ];
}

read_first : read_event runtime (delivery (codes "evt_1")) 100 ≡ ok (event (codes "evt_1"))
unfolding read_event is_signed secret_for verify_hmac_signature is_ascii remove_prefix upper
    enforce_replay_window get list_eq
read_first = refl

first_resolves :
    (provider_webhook runtime (delivery (codes "evt_1")) awaiting).0
    ≡ ok (concluded Resolved.resolved (codes "evt_1") 1)
unfolding provider_webhook handle_event record_event insert_event is_secret sanitize_payload
    after_record act conclude attach ledger_accounts resolve resolve_event target_of apply succeed
    settle_charge insert_capture end_operation end_payment mark_processed set_transaction consume
    update_budget post_journal post_new insert_journal insert_postings insert_posting fresh_id
    unit_of_work on_db ◌>>=◌ update raise_if read_event is_signed secret_for verify_hmac_signature
    is_ascii remove_prefix upper strip enforce_replay_window get list_eq lookup modify find_row
    find_last Status-discrete OperationType-discrete ReservationStatus-discrete
    ProcessingStatus-discrete TransactionStatus-discrete Side-discrete KeyKind-discrete key_eq
    eq_of_discrete ◌+ℤ◌ ◌-ℤ◌
first_resolves = refl

abbrev after : Session (MockProvider Key Text)
after =
    deliver_all runtime (provider_webhook runtime (delivery (codes "evt_1")) awaiting).1
      (delivery (codes "evt_2") ∷ [])

read_again : read_event runtime (delivery (codes "evt_1")) after.db.now ≡ ok (event (codes "evt_1"))
unfolding deliver_all provider_webhook handle_event record_event insert_event is_secret
    sanitize_payload after_record act conclude attach ledger_accounts resolve resolve_event
    target_of apply succeed settle_charge insert_capture end_operation end_payment mark_processed
    set_transaction consume update_budget post_journal post_new insert_journal insert_postings
    insert_posting fresh_id unit_of_work on_db ◌>>=◌ update raise_if read_event is_signed secret_for
    verify_hmac_signature is_ascii remove_prefix upper strip enforce_replay_window get list_eq
    lookup modify find_row find_last Status-discrete OperationType-discrete
    ReservationStatus-discrete ProcessingStatus-discrete TransactionStatus-discrete Side-discrete
    KeyKind-discrete key_eq eq_of_discrete ◌+ℤ◌ ◌-ℤ◌
read_again = refl

provider_webhook-once_example :
    provider_webhook runtime (delivery (codes "evt_1")) after
    ≡ (ok (duplicate (codes "evt_1")), after)
provider_webhook-once_example =
    provider_webhook-once runtime (delivery (codes "evt_1")) (event (codes "evt_1")) awaiting
      (concluded Resolved.resolved (codes "evt_1") 1) read_first first_resolves
      (delivery (codes "evt_2") ∷ []) (delivery (codes "evt_1")) (event (codes "evt_1")) read_again
      refl refl

unknown_reference :
    (provider_webhook runtime (delivery (codes "evt_1")) (session Status.authorized)).0
    ≡ err (http_error 404 "provider operation not found")
unfolding provider_webhook handle_event record_event insert_event is_secret sanitize_payload
    after_record act conclude attach ledger_accounts resolve resolve_event target_of apply succeed
    settle_charge insert_capture end_operation end_payment mark_processed set_transaction consume
    update_budget post_journal post_new insert_journal insert_postings insert_posting fresh_id
    unit_of_work on_db ◌>>=◌ update raise_if read_event is_signed secret_for verify_hmac_signature
    is_ascii remove_prefix upper strip enforce_replay_window get list_eq lookup modify find_row
    find_last Status-discrete OperationType-discrete ReservationStatus-discrete
    ProcessingStatus-discrete TransactionStatus-discrete Side-discrete KeyKind-discrete key_eq
    eq_of_discrete ◌+ℤ◌ ◌-ℤ◌
unknown_reference = refl

provider_webhook-rollback_example :
    let s = session Status.authorized in
    let t = (provider_webhook runtime (delivery (codes "evt_1")) s).1 in
    (t.durable ≡ s.durable) × (t.db ≡ s.durable)
provider_webhook-rollback_example =
    provider_webhook-rollback runtime (delivery (codes "evt_1")) (session Status.authorized)
      (http_error 404 "provider operation not found") refl unknown_reference

abbrev unsigned : Delivery
unsigned = record (delivery (codes "evt_1")) { signature = none }

hexadecimal : (secret body : Text) → is_ascii (runtime.hmac secret body) ≡ true
unfolding is_ascii
hexadecimal secret body = refl

abbrev accented : Delivery
accented = record (delivery (codes "evt_1")) { signature = some (233 ∷ []) }

accented-IsForged : IsForged runtime accented
unfolding remove_prefix
accented-IsForged = inr (λ signature h k. absurd (cc))

forged-refused_example :
    (e : Error) × (provider_webhook runtime accented awaiting ≡ (err e, awaiting))
    × (provider_settlement runtime accented awaiting ≡ (err e, awaiting))
    × ((e ≡ http_error 401 "invalid provider signature")
        ⊎ (e ≡ not_ascii) × IsUnreadable runtime accented)
forged-refused_example = forged-refused runtime accented awaiting hexadecimal accented-IsForged

unsigned_answer :
    provider_webhook runtime unsigned awaiting
    ≡ (err (http_error 401 "invalid provider signature"), awaiting)
unfolding provider_webhook read_event is_signed on_db ◌>>=◌
unsigned_answer = refl
