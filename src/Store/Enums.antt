-- ===== src/Store/Enums.antt =====
-- The text columns of the schema that hold one of a few words.
use agent_pay.Prelude.{Eq, eq_of_discrete}

-- payments.status
pub data Status : Type 0 where
  requested policy_check budget_check approval_required approved : Status
  authentication_required authenticated authorized payment_pending processing : Status
  unknown_external_outcome succeeded failed cancelled : Status
  void_requested voided void_failed refund_processing refunded refund_failed : Status

-- budget_reservations.status
pub data ReservationStatus : Type 0 where
  reserved consumed released : ReservationStatus

-- provider_operations.operation_type, and transactions.type but for `charge`
pub data OperationType : Type 0 where
  charge capture void refund : OperationType

-- provider_operations.status
pub data OperationStatus : Type 0 where
  pending succeeded failed unknown : OperationStatus

-- transactions.status
pub data TransactionStatus : Type 0 where
  pending posted failed : TransactionStatus

-- provider_events.processing_status
pub data ProcessingStatus : Type 0 where
  received processed : ProcessingStatus

-- settlements.status
pub data SettlementStatus : Type 0 where
  reported reconciled discrepancy : SettlementStatus

-- outbox_events.status
pub data OutboxStatus : Type 0 where
  pending processing published dead_letter : OutboxStatus

-- approvals.status
pub data ApprovalStatus : Type 0 where
  pending approved denied expired : ApprovalStatus

-- ledger_postings.side
pub data Side : Type 0 where
  debit credit : Side

unfoldable pub Status-discrete : Discrete Status
Status-discrete = hlevel

unfoldable pub ReservationStatus-discrete : Discrete ReservationStatus
ReservationStatus-discrete = hlevel

unfoldable pub OperationType-discrete : Discrete OperationType
OperationType-discrete = hlevel

unfoldable pub OperationStatus-discrete : Discrete OperationStatus
OperationStatus-discrete = hlevel

unfoldable pub TransactionStatus-discrete : Discrete TransactionStatus
TransactionStatus-discrete = hlevel

unfoldable pub ProcessingStatus-discrete : Discrete ProcessingStatus
ProcessingStatus-discrete = hlevel

unfoldable pub OutboxStatus-discrete : Discrete OutboxStatus
OutboxStatus-discrete = hlevel

unfoldable pub ApprovalStatus-discrete : Discrete ApprovalStatus
ApprovalStatus-discrete = hlevel

unfoldable pub Side-discrete : Discrete Side
Side-discrete = hlevel

instance abbrev pub Status_eq : Eq Status
Status_eq = eq_of_discrete Status-discrete

instance abbrev pub ReservationStatus_eq : Eq ReservationStatus
ReservationStatus_eq = eq_of_discrete ReservationStatus-discrete

instance abbrev pub OperationType_eq : Eq OperationType
OperationType_eq = eq_of_discrete OperationType-discrete

instance abbrev pub OperationStatus_eq : Eq OperationStatus
OperationStatus_eq = eq_of_discrete OperationStatus-discrete

instance abbrev pub TransactionStatus_eq : Eq TransactionStatus
TransactionStatus_eq = eq_of_discrete TransactionStatus-discrete

instance abbrev pub ProcessingStatus_eq : Eq ProcessingStatus
ProcessingStatus_eq = eq_of_discrete ProcessingStatus-discrete

instance abbrev pub OutboxStatus_eq : Eq OutboxStatus
OutboxStatus_eq = eq_of_discrete OutboxStatus-discrete

instance abbrev pub Side_eq : Eq Side
Side_eq = eq_of_discrete Side-discrete

instance abbrev pub ApprovalStatus_eq : Eq ApprovalStatus
ApprovalStatus_eq = eq_of_discrete ApprovalStatus-discrete
