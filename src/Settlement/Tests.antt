-- ===== src/Settlement/Tests.antt =====
-- Instances for settlement reports.
use agent_pay.Prelude.{codes, pos, none, some, ◌≡◌, refl, upper, strip, list_eq, eq_of_discrete}
use agent_pay.Prelude.Exec.Keeps.{Ensures}
use agent_pay.Settlement.{Report, reconciled, compare_amounts, ingest_report}
use agent_pay.Settlement.Rounding.{reconciled-matched}
use agent_pay.Settlement.Frame.{truth, ingest_report-frame}
use agent_pay.Samples.{payment, ten, usd, with_payment}
use agent_pay.Store.{
  Status, ProviderOperation, OperationType, OperationStatus, OperationStatus-discrete, KeyKind,
  plain,
}

abbrev report : Report
report = record {
  provider_name = codes "mock";
  settlement_reference = codes "s";
  provider_reference = codes "p";
  amount = record { coefficient = ten; places = 4 };
  currency = usd;
  reported_at = none;
  settled_at = none;
}

ingest_report-frame_example :
    Ensures
      (λ c t. truth t ≡ truth (with_payment Status.succeeded))
      (ingest_report report (with_payment Status.succeeded))
ingest_report-frame_example = ingest_report-frame report (with_payment Status.succeeded)

abbrev charge : ProviderOperation
charge = record {
  payment_id = 1;
  operation_type = OperationType.charge;
  idempotency_key = plain KeyKind.payment_charge 1;
  status = OperationStatus.succeeded;
  provider_reference = some (codes "p");
  completed_at = none;
}

-- Ten dollars with six places.
abbrev long_report : Report
long_report = record report { amount = record { coefficient = pos 10000000; places = 6 } }

reconciled-matched_example :
    (charge.status ≡ OperationStatus.succeeded)
    × ((reconciled 70 71 charge (payment Status.succeeded) long_report).observed_amount ≡ ten)
    × (upper (strip usd) ≡ upper (strip usd))
    × ((reconciled 70 71 charge (payment Status.succeeded) long_report).discrepancy_code ≡ none)
unfolding compare_amounts strip upper list_eq eq_of_discrete OperationStatus-discrete
reconciled-matched_example =
    reconciled-matched 70 71 charge (payment Status.succeeded) long_report refl
