-- ===== src/Outbox/Tests.antt =====
-- Instances for the outbox.
use agent_pay.Prelude.{
  ℕ, pos, some, none, List, [], ◌∷◌, lookup, ◌≡◌, refl, true, ℕ_eq, eq_of_discrete,
}
use agent_pay.Outbox.{claim_rows}
use agent_pay.Outbox.Settled.{Call, is_settled, after_all, settled-stays, claim_rows-exclusive}
use agent_pay.Samples.{with_payment}
use agent_pay.Store.{Db, Status, OutboxEvent, OutboxStatus, OutboxStatus-discrete, EventType}

abbrev event : OutboxStatus → OutboxEvent
event status = record {
  event_type = EventType.payment_started 9;
  aggregate_id = 1;
  correlation_id = none;
  status = status;
  attempts = 1;
  available_at = 0;
  processing_at = none;
  published_at = some 50;
  last_error = none;
}

abbrev published : Db
published = record (with_payment Status.processing) {
  outbox_events = (6, event OutboxStatus.published) ∷ (7, event OutboxStatus.pending) ∷ [];
}

published-is_settled : is_settled (event OutboxStatus.published) ≡ true
unfolding OutboxStatus-discrete eq_of_discrete
published-is_settled = refl

published_found : lookup 6 published.outbox_events ≡ some (event OutboxStatus.published)
unfolding lookup
published_found = refl

abbrev calls : List (ℕ × Call)
calls =
    (100, Call.claiming 5)
    ∷ (101, Call.publishing 7)
    ∷ (300, Call.recovering (pos 60) (pos 5))
    ∷ (301, Call.failing 6 (pos 30) none)
    ∷ []

settled-stays_example :
    lookup 6 (after_all published calls).outbox_events ≡ some (event OutboxStatus.published)
settled-stays_example =
    settled-stays 6 (event OutboxStatus.published) published calls published-is_settled
      published_found

claim_rows-exclusive_example :
    (claim_rows 100 3 (claim_rows 100 2 published.outbox_events).0).1 ≡ []
claim_rows-exclusive_example = claim_rows-exclusive 100 2 3 published.outbox_events refl
