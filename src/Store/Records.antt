-- ===== src/Store/Records.antt =====
-- The rows of the tables, and the database. A UUID is a number, and a timestamp counts seconds.
-- `created_at` is the order of the rows. Columns that no code modelled here uses are left out.
use agent_pay.Prelude.{ℕ, ℤ, Text, Bool, Option, List, Table}
use agent_pay.Store.Enums.{
  Status, ReservationStatus, OperationType, OperationStatus, TransactionStatus, ProcessingStatus,
  SettlementStatus, OutboxStatus, ApprovalStatus, Side,
}
use agent_pay.Policy.{SpendingPolicy}
use agent_pay.Json.{Json}
use agent_pay.Store.Keys.{Key}

pub record Payment : Type 0 where
  pub payment_request_id : ℕ
  pub amount : ℤ
  pub currency : Text
  pub status : Status
  pub provider_reference : Option Text
  pub provider_operation_id : Option ℕ
  pub completed_at : Option ℕ
  pub updated_at : ℕ

pub record PaymentRequest : Type 0 where
  pub account_id : ℕ
  pub agent_id : ℕ
  pub merchant_id : Option ℕ
  pub policy_version_id : Option ℕ
  pub amount : ℤ
  pub currency : Text
  pub authorization_evidence_id : Option ℕ
  pub budget_id : Option ℕ
  pub budget_reservation_id : Option ℕ

pub record Evidence : Type 0 where
  pub verified : Bool

pub record Budget : Type 0 where
  pub account_id : ℕ
  pub policy_id : Option ℕ
  pub active : Bool
  pub currency : Text
  pub limit_amount : ℤ
  pub consumed_amount : ℤ
  pub reserved_amount : ℤ
  pub updated_at : ℕ

pub record Reservation : Type 0 where
  pub budget_id : ℕ
  pub payment_request_id : ℕ
  pub amount : ℤ
  pub currency : Text
  pub status : ReservationStatus
  pub consumed_at : Option ℕ
  pub released_at : Option ℕ

pub record ProviderOperation : Type 0 where
  pub payment_id : ℕ
  pub operation_type : OperationType
  pub idempotency_key : Key
  pub provider_reference : Option Text
  pub status : OperationStatus
  pub completed_at : Option ℕ

pub record Transaction : Type 0 where
  pub payment_id : ℕ
  pub operation_type : OperationType
  pub status : TransactionStatus
  pub amount : ℤ
  pub currency : Text
  pub original_transaction_id : Option ℕ
  pub external_reference : Option Text
  pub idempotency_key : Key
  pub posted_at : Option ℕ

-- ledger_journals.reference_type
pub data ReferenceType : Type 0 where
  transaction payment : ReferenceType

pub record Journal : Type 0 where
  pub currency : Text
  pub reference_type : ReferenceType
  pub reference_id : ℕ
  pub idempotency_key : Key
  pub correlation_id : Option Text

pub record Posting : Type 0 where
  pub journal_id : ℕ
  pub ledger_account_id : ℕ
  pub side : Side
  pub amount : ℤ
  pub currency : Text

-- wallets, payment_provider_accounts: status = 'ACTIVE' is the field `active`
pub record Wallet : Type 0 where
  pub account_id : ℕ
  pub currency : Text
  pub active : Bool

pub record LedgerAccount : Type 0 where
  pub wallet_id : Option ℕ

pub record ProviderAccount : Type 0 where
  pub provider_name : Text
  pub currency : Text
  pub ledger_account_id : ℕ
  pub active : Bool

pub record ProviderEvent : Type 0 where
  pub provider_name : Text
  pub provider_event_id : Text
  pub event_type : Text
  pub signature_valid : Bool
  pub payload : Json
  pub payload_digest : Text
  pub processing_status : ProcessingStatus
  pub provider_operation_id : Option ℕ
  pub processed_at : Option ℕ

pub record Settlement : Type 0 where
  pub provider_name : Text
  pub settlement_reference : Text
  pub currency : Text
  pub amount : ℤ
  pub status : SettlementStatus
  pub reported_at : Option Text
  pub settled_at : Option Text

-- reconciliation_records.status and discrepancy_code, as `compare_amounts` gives them
pub data ReconciliationStatus : Type 0 where
  matched discrepancy : ReconciliationStatus

pub data DiscrepancyCode : Type 0 where
  unknown_provider_reference status_mismatch currency_mismatch amount_mismatch : DiscrepancyCode

pub record Reconciliation : Type 0 where
  pub settlement_id : ℕ
  pub provider_operation_id : Option ℕ
  pub status : ReconciliationStatus
  pub expected_amount : Option ℤ
  pub observed_amount : ℤ
  pub expected_currency : Option Text
  pub observed_currency : Text
  pub discrepancy_code : Option DiscrepancyCode

-- outbox_events.event_type, with the payload that the program sends
pub data EventType : Type 0 where
  payment_started payment_failed payment_outcome_unknown : ℕ → EventType
  budget_insufficient : EventType
  -- PaymentFailed, with a reason of the API
  policy_denied budget_unavailable : Option ℕ → EventType
  user_denied : ℕ → EventType
  -- the approval, and who approved or which budget is bound
  payment_approved : ℕ → Text → EventType
  approval_requested : ℕ → ℕ → EventType
  notification_requested : ℤ → Text → EventType
  payment_succeeded : ℤ → Text → EventType

pub record OutboxEvent : Type 0 where
  pub event_type : EventType
  pub aggregate_id : ℕ
  pub correlation_id : Option Text
  pub status : OutboxStatus
  pub attempts : ℕ
  pub available_at : ℕ
  pub processing_at : Option ℕ
  pub published_at : Option ℕ
  pub last_error : Option Text

-- policies and policy_versions: status = 'ACTIVE' is the field `active`, and `rules` is what
-- `SpendingPolicy.from_rules` makes of the column
pub record StoredPolicy : Type 0 where
  pub account_id : ℕ
  pub active : Bool
  pub updated_at : ℕ

pub record PolicyVersion : Type 0 where
  pub policy_id : ℕ
  pub version : ℕ
  pub rules : SpendingPolicy
  pub active : Bool

pub record Approval : Type 0 where
  pub payment_request_id : ℕ
  pub status : ApprovalStatus
  pub expires_at : Option ℕ
  pub approved_at : Option ℕ
  pub approved_by : Option Text
  pub decided_at : Option ℕ
  pub reason : Option Text
  pub intent_digest : Option Text

-- audit_events: who acted and the result are the same text in every row that the outbox's worker
-- writes, and the metadata is the event's payload
pub record AuditEvent : Type 0 where
  pub event_id : ℕ
  pub account_id : Option ℕ
  pub action : EventType
  pub resource_id : ℕ
  pub correlation_id : Option Text

pub record Notification : Type 0 where
  pub account_id : ℕ
  pub source_event_id : ℕ
  pub payload : EventType

pub record Merchant : Type 0 where
  pub domain : Option Text

pub record Db : Type 0 where
  pub now : ℕ
  -- the next UUID that gen_random_uuid() will give
  pub next_id : ℕ
  pub payments : Table Payment
  pub payment_requests : Table PaymentRequest
  pub authorization_evidence : Table Evidence
  pub budgets : Table Budget
  pub budget_reservations : Table Reservation
  pub provider_operations : Table ProviderOperation
  pub transactions : Table Transaction
  pub ledger_journals : Table Journal
  pub ledger_postings : List Posting
  pub provider_events : Table ProviderEvent
  pub settlements : Table Settlement
  pub reconciliation_records : Table Reconciliation
  pub outbox_events : Table OutboxEvent
  pub wallets : Table Wallet
  pub ledger_accounts : Table LedgerAccount
  pub payment_provider_accounts : Table ProviderAccount
  pub policies : Table StoredPolicy
  pub policy_versions : Table PolicyVersion
  pub approvals : Table Approval
  pub merchants : Table Merchant
  pub audit_events : Table AuditEvent
  pub notifications : Table Notification
