-- ===== src/Settlement.antt =====
-- reference/implementation/src/agent_pay/settlement.py and reconciliation.py
pub mod Frame
pub mod Rounding
mod Tests
use agent_pay.Prelude.{
  ℕ, ◌+◌, ◌*◌, ◌/◌, ◌^◌, leb, ℤ, pos, pos_part, neg_part, sub_ℕ, leb_ℤ, nat_eq, Text, strip, upper,
  is_empty, length, Eq, ◌==◌, List_eq, ℕ_eq, Bool, true, false, not, ◌&&◌, ◌||◌, Option, none, some,
  lookup, modify, find_row, find_last, append_row, if◌then◌else◌,
}
use agent_pay.Prelude.Errors.{Error.value_error, Error.database_error}
use agent_pay.Prelude.Exec.{Exec, pure, gets, ◌>>=◌, ◌>>◌, update, raise_if}
use agent_pay.Store.{
  Db, Payment, ProviderOperation, OperationStatus, OperationStatus_eq, Settlement, SettlementStatus,
  Reconciliation, ReconciliationStatus, DiscrepancyCode, Session, on_db, unit_of_work, fresh_id,
}

-- A finite `Decimal`: the coefficient, divided by a power of ten.
pub record Decimal : Type 0 where
  pub coefficient : ℤ
  pub places : ℕ

-- A column's amount, in ten-thousandths, equals a `Decimal`.
abbrev pub eq_decimal : ℤ → Decimal → Bool
eq_decimal a d =
    nat_eq (pos_part a * 10 ^ d.places + neg_part d.coefficient * 10 ^ 4)
      (neg_part a * 10 ^ d.places + pos_part d.coefficient * 10 ^ 4)

abbrev half_up : ℕ → ℕ → ℕ
half_up n places = (2 * n * 10 ^ 4 + 10 ^ places) / (2 * 10 ^ places)

-- What a NUMERIC(20,4) column keeps of a `Decimal`: four places, halves away from zero.
abbrev pub stored : Decimal → ℤ
stored d =
    sub_ℕ (half_up (pos_part d.coefficient) d.places) (half_up (neg_part d.coefficient) d.places)

-- More than sixteen digits are left of the point.
abbrev pub overflows : Decimal → Bool
overflows d = leb (10 ^ 20) (pos_part (stored d) + neg_part (stored d))

-- The arguments of `ingest`, the amount as a `Decimal`.
pub record Report : Type 0 where
  pub provider_name : Text
  pub settlement_reference : Text
  pub provider_reference : Text
  pub amount : Decimal
  pub currency : Text
  pub reported_at : Option Text
  pub settled_at : Option Text

-- What `ingest` returns.
pub data Conclusion : Type 0 where
  duplicate matched discrepancy : Conclusion

-- `compare_amounts`
unfoldable pub compare_amounts :
    ℤ → Decimal → Text → Text → ReconciliationStatus × Option DiscrepancyCode
compare_amounts expected observed expected_currency observed_currency =
    let currency_match = upper (strip expected_currency) == upper (strip observed_currency) in
    let amount_match = eq_decimal expected observed in
    if currency_match && amount_match
    then (ReconciliationStatus.matched, none)
    else if not currency_match
    then (ReconciliationStatus.discrepancy, some DiscrepancyCode.currency_mismatch)
    else (ReconciliationStatus.discrepancy, some DiscrepancyCode.amount_mismatch)

-- The stripped texts that `ingest` goes on with.
abbrev pub cleaned : Report → Report
cleaned r = record r {
  provider_name = strip r.provider_name;
  settlement_reference = strip r.settlement_reference;
  provider_reference = strip r.provider_reference;
  currency = upper (strip r.currency);
}

abbrev pub is_report_of : Report → Settlement → Bool
is_report_of r s =
    s.provider_name == r.provider_name && s.settlement_reference == r.settlement_reference

abbrev pub new_settlement : Report → Settlement
new_settlement r = record {
  provider_name = r.provider_name;
  settlement_reference = r.settlement_reference;
  currency = r.currency;
  amount = stored r.amount;
  status = SettlementStatus.reported;
  reported_at = r.reported_at;
  settled_at = r.settled_at;
}

-- INSERT ... ON CONFLICT DO NOTHING RETURNING id
unfoldable pub insert_settlement : Option (ℕ × Settlement) → Report → Exec Db (Option ℕ)
insert_settlement (some existing) r = pure none
insert_settlement none r = do
  id ← fresh_id
  update (λ db. record db { settlements = append_row id (new_settlement r) db.settlements })
  pure (some id)

-- `_record_reconciliation`
unfoldable pub record_reconciliation : Reconciliation → Exec Db ℕ
record_reconciliation r = do
  id ← fresh_id
  update (λ db. record db { reconciliation_records = append_row id r db.reconciliation_records })
  pure id

unfoldable pub set_settlement : ℕ → SettlementStatus → Exec Db (Unit {0})
set_settlement settlement status = update (λ db. record db {
  settlements = modify settlement (λ s. record s { status = status }) db.settlements;
})

abbrev is_there : Option Payment → Bool
is_there none = false
is_there (some p) = true

abbrev pub has_reference : Text → Option Text → Bool
has_reference reference none = false
has_reference reference (some t) = t == reference

abbrev with_payment : Option (ℕ × ProviderOperation) → Db → Option (ℕ × ProviderOperation × Payment)
with_payment none db = none
with_payment (some (id, o)) db = elim (lookup o.payment_id db.payments) [
  | none ↦ none
  | some p ↦ some (id, o, p)
]

-- The newest provider operation with a reference, with its payment.
unfoldable pub operation_at : Text → Db → Option (ℕ × ProviderOperation × Payment)
operation_at reference db =
    with_payment
      (find_last
        (λ o.
          has_reference reference o.provider_reference
          && is_there (lookup o.payment_id db.payments))
        db.provider_operations)
      db

-- What a report is found to be.
abbrev pub judged :
    ProviderOperation → Payment → Report → ReconciliationStatus × Option DiscrepancyCode
judged o p r =
    if o.status == OperationStatus.succeeded
    then compare_amounts p.amount r.amount p.currency r.currency
    else (ReconciliationStatus.discrepancy, some DiscrepancyCode.status_mismatch)

abbrev pub settlement_status : ReconciliationStatus → SettlementStatus
settlement_status ReconciliationStatus.matched = SettlementStatus.reconciled
settlement_status ReconciliationStatus.discrepancy = SettlementStatus.discrepancy

abbrev pub conclusion : ReconciliationStatus → Conclusion
conclusion ReconciliationStatus.matched = Conclusion.matched
conclusion ReconciliationStatus.discrepancy = Conclusion.discrepancy

abbrev pub unmatched : ℕ → Report → Reconciliation
unmatched settlement r = record {
  settlement_id = settlement;
  provider_operation_id = none;
  status = ReconciliationStatus.discrepancy;
  expected_amount = none;
  observed_amount = stored r.amount;
  expected_currency = none;
  observed_currency = r.currency;
  discrepancy_code = some DiscrepancyCode.unknown_provider_reference;
}

abbrev pub reconciled : ℕ → ℕ → ProviderOperation → Payment → Report → Reconciliation
reconciled settlement operation o p r = record {
  settlement_id = settlement;
  provider_operation_id = some operation;
  status = (judged o p r).0;
  expected_amount = some p.amount;
  observed_amount = stored r.amount;
  expected_currency = some p.currency;
  observed_currency = r.currency;
  discrepancy_code = (judged o p r).1;
}

unfoldable pub reconcile :
    Option (ℕ × ProviderOperation × Payment) → ℕ → Report → Exec Db Conclusion
reconcile none settlement r = do
  _ ← record_reconciliation (unmatched settlement r)
  set_settlement settlement SettlementStatus.discrepancy
  pure Conclusion.discrepancy
reconcile (some (id, o, p)) settlement r = do
  _ ← record_reconciliation (reconciled settlement id o p r)
  set_settlement settlement (settlement_status (judged o p r).0)
  pure (conclusion (judged o p r).0)

unfoldable pub after_insert : Option ℕ → Report → Exec Db Conclusion
after_insert none r = pure Conclusion.duplicate
after_insert (some settlement) r = do
  operation ← gets (operation_at r.provider_reference)
  reconcile operation settlement r

-- The unit of work of `ingest`.
unfoldable pub ingest_report : Report → Exec Db Conclusion
ingest_report r = do
  raise_if (overflows r.amount) (database_error "numeric field overflow")
  existing ← gets (λ db. find_row (is_report_of r) db.settlements)
  inserted ← insert_settlement existing r
  after_insert inserted r

-- `ingest`
unfoldable pub ingest : {P : Type 0} → Report → Exec (Session P) Conclusion
ingest report = do
  raise_if
      (is_empty (strip report.provider_name)
        || is_empty (strip report.settlement_reference)
        || is_empty (strip report.provider_reference))
      (value_error "provider and settlement references are required")
  raise_if (leb_ℤ report.amount.coefficient (pos 0))
      (value_error "observed settlement amount must be positive")
  raise_if (not (nat_eq (length (upper (strip report.currency))) 3))
      (value_error "observed settlement currency must be ISO-4217 alpha-3")
  unit_of_work (on_db (ingest_report (cleaned report)))
