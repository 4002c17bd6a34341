-- ===== src/Ledger/State.antt =====
-- The rows that the ledger keeps (BookingSettlement, SettlementCase, CommissionCollection with its
-- items in backend/prisma/schema.prisma) and what it reads of a booking. The numbers of a table's
-- rows give their order in time.
use easyrepair.Prelude.{ℕ, Bool, true, false, Option, List, Table}
use easyrepair.Steps.{Step}
use easyrepair.Schema.{BookingStatus, BookingLane, InspectionDecisionStatus}
use easyrepair.Commission.Settlement.{SettlementCaseType, BookingSettlementCalculation, RangeError}

pub data SettlementSource : Type 0 where
  otp ustaad client admin : SettlementSource

abbrev pub is_client_source : SettlementSource → Bool
is_client_source SettlementSource.client = true
is_client_source _ = false

pub data SettlementCaseStatus : Type 0 where
  case_open in_progress resolved closed : SettlementCaseStatus

abbrev pub is_closed : SettlementCaseStatus → Bool
is_closed SettlementCaseStatus.closed = true
is_closed _ = false

-- `RESOLVED` or `CLOSED`
abbrev pub is_over : SettlementCaseStatus → Bool
is_over SettlementCaseStatus.resolved = true
is_over SettlementCaseStatus.closed = true
is_over _ = false

abbrev pub same_case_status : SettlementCaseStatus → SettlementCaseStatus → Bool
same_case_status SettlementCaseStatus.case_open SettlementCaseStatus.case_open = true
same_case_status SettlementCaseStatus.in_progress SettlementCaseStatus.in_progress = true
same_case_status SettlementCaseStatus.resolved SettlementCaseStatus.resolved = true
same_case_status SettlementCaseStatus.closed SettlementCaseStatus.closed = true
same_case_status _ _ = false

pub data SettlementCasePriority : Type 0 where
  low normal high urgent : SettlementCasePriority

pub data SettlementCaseEventType : Type 0 where
  created status_changed assigned note_added contact_attempted case_resolved reopened :
      SettlementCaseEventType

pub data CommissionCollectionStatus : Type 0 where
  pending collected failed cancelled : CommissionCollectionStatus

abbrev pub is_collected : CommissionCollectionStatus → Bool
is_collected CommissionCollectionStatus.collected = true
is_collected _ = false

abbrev pub is_pending_collection : CommissionCollectionStatus → Bool
is_pending_collection CommissionCollectionStatus.pending = true
is_pending_collection _ = false

abbrev pub is_failed : CommissionCollectionStatus → Bool
is_failed CommissionCollectionStatus.failed = true
is_failed _ = false

abbrev pub same_collection_status : CommissionCollectionStatus → CommissionCollectionStatus → Bool
same_collection_status CommissionCollectionStatus.pending CommissionCollectionStatus.pending = true
same_collection_status CommissionCollectionStatus.collected CommissionCollectionStatus.collected =
    true
same_collection_status CommissionCollectionStatus.failed CommissionCollectionStatus.failed = true
same_collection_status CommissionCollectionStatus.cancelled CommissionCollectionStatus.cancelled =
    true
same_collection_status _ _ = false

-- The inspection report of a booking, by what the settlement reads of it.
pub record QuotedReport : Type 0 where
  pub decision_status : InspectionDecisionStatus
  pub parts_total : ℕ
  pub labour_cost : ℕ

-- A booking with its client and worker, by what the ledger reads of it. Prices are hundredths of a
-- rupee.
pub record LedgerBooking : Type 0 where
  pub client_user_id : ℕ
  pub worker_profile_id : Option ℕ
  pub worker_user_id : Option ℕ
  pub status : BookingStatus
  pub lane : BookingLane
  pub final_price : Option ℕ
  pub inspection_fee_snapshot : Option ℕ
  pub report : Option QuotedReport
  pub commission_paid : Bool

-- `received` and the amounts of `money` are whole rupees, as the columns are integers.
pub record BookingSettlement : Type 0 where
  pub booking_id : ℕ
  pub worker_profile_id : ℕ
  pub supersedes_id : Option ℕ
  pub is_current : Bool
  pub received : ℕ
  pub source : SettlementSource
  pub money : BookingSettlementCalculation
  pub settled_by_user_id : ℕ
  pub settled_at : ℕ

pub record SettlementCase : Type 0 where
  pub booking_id : ℕ
  pub settlement_id : ℕ
  pub case_type : SettlementCaseType
  pub status : SettlementCaseStatus
  pub priority : SettlementCasePriority
  pub assigned_to_user_id : Option ℕ
  pub resolved_at : Option ℕ

-- A row of `settlementCaseEvent`.
pub record CaseEvent : Type 0 where
  pub case_id : ℕ
  pub event_type : SettlementCaseEventType
  pub actor_user_id : ℕ

pub record CollectionItem : Type 0 where
  pub settlement_id : ℕ
  pub amount : ℕ

-- A collection with its items; a date is the number of its day.
pub record CommissionCollection : Type 0 where
  pub worker_profile_id : ℕ
  pub collection_date : ℕ
  pub amount : ℕ
  pub status : CommissionCollectionStatus
  pub automated : Bool
  pub collected_at : Option ℕ
  pub items : List CollectionItem

-- The keys under which a payment is announced to the worker.
pub data PaymentKey : Type 0 where
  payment_short payment_received : PaymentKey

abbrev pub same_key : PaymentKey → PaymentKey → Bool
same_key payment_short payment_short = true
same_key payment_received payment_received = true
same_key _ _ = false

pub record PaymentNotice : Type 0 where
  pub user_id : ℕ
  pub booking_id : ℕ
  pub event_key : PaymentKey

pub record LedgerDb : Type 0 where
  pub bookings : Table LedgerBooking
  pub settlements : Table BookingSettlement
  pub next_settlement : ℕ
  pub cases : Table SettlementCase
  pub next_case : ℕ
  pub events : List CaseEvent
  pub collections : Table CommissionCollection
  pub next_collection : ℕ
  pub notices : List PaymentNotice

pub data LedgerError : Type 0 where
  booking_not_found not_your_booking not_completed no_worker final_price_missing : LedgerError
  range_error : RangeError → LedgerError
  must_supersede_current already_settled already_collected settlement_changed : LedgerError
  correction_required : LedgerError
  -- what the repository and Prisma throw
  write_conflict collected_conflict unique_violation not_an_integer record_not_found : LedgerError
  case_not_found case_field_required empty_note : LedgerError
  failure_reason_required back_to_pending collected_immutable collection_not_found : LedgerError

-- `error instanceof ConflictException`
abbrev pub is_conflict : LedgerError → Bool
is_conflict must_supersede_current = true
is_conflict already_settled = true
is_conflict already_collected = true
is_conflict settlement_changed = true
is_conflict correction_required = true
is_conflict collected_immutable = true
is_conflict _ = false

abbrev pub Ledger : Type 0 → Type 0
Ledger = Step LedgerDb LedgerError
