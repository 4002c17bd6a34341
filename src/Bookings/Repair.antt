-- ===== src/Bookings/Repair.antt =====
-- The two repair transactions of backend/src/modules/bookings/bookings.repository.ts: the client
-- who looks for another worker after an inspection, and the one who hires the inspector again.
pub mod Retry
use easyrepair.Prelude.{
  ℕ, suc, false, ◌&&◌, Option, none, some, [], ◌==◌, if◌then◌else◌, holds_id, put, update_many,
  find_first,
}
use Prim.Native.String.{String}
use easyrepair.Schema.{
  BookingStatus, BookingLane, BidStatus, InspectionDecisionStatus, Booking, Bid, Place,
  is_in_progress, is_inspection, is_bid_pending, is_undecided, is_find_other,
}
use easyrepair.Store.{
  Result, ok, err, worker_unavailable, inspection_close_state, unique_violation, Db, Transaction,
  ◌>>=◌, booking_update_if, add_history, release_worker, occupy_worker,
}
use easyrepair.Bookings.Transactions.{is_hireable}

pub record CloseInspectionParams : Type 0 where
  pub report_id : ℕ
  pub original_booking_id : ℕ
  pub inspecting_worker_profile_id : ℕ
  pub client_profile_id : ℕ
  pub category_id : ℕ
  pub title : Option String
  pub description : String
  pub place : Place

-- A child booking is given by its number.
pub data CloseInspectionOutcome : Type 0 where
  created already_done : ℕ → CloseInspectionOutcome
  conflicting_decision : InspectionDecisionStatus → CloseInspectionOutcome
  link_missing booking_state_changed : CloseInspectionOutcome

-- `findUnique({ where: { sourceInspectionBookingId } })`
unfoldable pub find_repair_booking : ℕ → Db → Option (ℕ × Booking)
find_repair_booking source db =
    find_first (λ _ (b : Booking). holds_id b.source_inspection_booking_id source) db.next_booking
      db.bookings

-- The `updateMany` that is the guard: the report leaves PENDING_CLIENT_DECISION.
unfoldable pub decide_find_other : ℕ → Db → Option Db
decide_find_other id db = elim (db.reports id) [
  | none ↦ none
  | some r ↦
      if is_undecided r.decision_status
      then some (record db {
        reports =
            put id (record r { decision_status = InspectionDecisionStatus.find_other_ustaad })
              db.reports;
      })
      else none
]

-- The guarded close of the inspection booking; a count of 0 throws.
unfoldable pub close_inspection : CloseInspectionParams → (now : ℕ) → Db → Result Db
close_inspection p now db =
    elim (booking_update_if p.original_booking_id
      (λ b.
        is_in_progress b.status
        && (holds_id b.worker_profile_id p.inspecting_worker_profile_id && is_inspection b.lane))
      (λ b. record b { status = BookingStatus.completed; completed_at = some now }) db) [
        | none ↦ err inspection_close_state
        | some db₁ ↦ ok db₁
      ]

abbrev pub child_booking : CloseInspectionParams → (now expires_at : ℕ) → Booking
child_booking p now expires_at = record {
  client_profile_id = p.client_profile_id;
  worker_profile_id = none;
  category_id = p.category_id;
  status = BookingStatus.pending;
  lane = BookingLane.bidding;
  title = p.title;
  description = p.description;
  place = p.place;
  inspection = false;
  created_at = now;
  accepted_at = none;
  en_route_at = none;
  arrived_at = none;
  started_at = none;
  completed_at = none;
  cancelled_at = none;
  cancellation_reason = none;
  cancelled_by_role = none;
  expires_at = some expires_at;
  live_started_at = some now;
  relisted_at = none;
  standard_service_price_snapshot = none;
  standard_service_items = [];
  inspection_fee_snapshot = none;
  final_price = none;
  platform_fee = none;
  source_inspection_booking_id = some p.original_booking_id;
}

-- `booking.create` of the repair job; `sourceInspectionBookingId` is unique.
unfoldable pub create_child : CloseInspectionParams → (now expires_at : ℕ) → Db → Result (ℕ × Db)
unfolding find_repair_booking
create_child p now expires_at db =
    let child = db.next_booking in
    elim (find_repair_booking p.original_booking_id db) [
      | some _ ↦ err unique_violation
      | none ↦ ok (
        child,
        record db {
          bookings = put child (child_booking p now expires_at) db.bookings;
          next_booking = suc db.next_booking;
        },
      )
    ]

-- The transaction; `none` is its `return null`.
unfoldable pub close_and_open :
    CloseInspectionParams → (now expires_at : ℕ) → Db → Result (Option ℕ × Db)
unfolding decide_find_other close_inspection create_child
close_and_open p now expires_at db = elim (decide_find_other p.report_id db) [
  | none ↦ ok (none, db)
  | some db₁ ↦ do
    db₂ ← close_inspection p now db₁
    db₃ ← release_worker p.inspecting_worker_profile_id (
        add_history p.original_booking_id BookingStatus.completed
          "Inspection completed — client chose to find another Ustaad for the repair" db₂)
    r ← create_child p now expires_at db₃
    ok (
      some r.0,
      add_history r.0 BookingStatus.pending
          "Repair job opened for bidding after completed inspection" r.1,
    )
]

-- What follows a lost guard: the decision is read again.
unfoldable pub resolve_lost_guard : CloseInspectionParams → Db → CloseInspectionOutcome
unfolding find_repair_booking
resolve_lost_guard p db = elim (db.reports p.report_id) [
  | none ↦ link_missing
  | some r ↦
      if is_find_other r.decision_status
      then elim (find_repair_booking p.original_booking_id db) [
        | none ↦ link_missing
        | some (child, _) ↦ already_done child
      ]
      else conflicting_decision r.decision_status
]

-- `closeInspectionAndOpenRepairBidding`: an InspectionCloseStateError is caught, any other error
-- goes on; either way the transaction has written nothing.
unfoldable pub close_inspection_and_open_repair_bidding :
    CloseInspectionParams → (now expires_at : ℕ) → Transaction CloseInspectionOutcome
unfolding close_and_open resolve_lost_guard
close_inspection_and_open_repair_bidding p now expires_at db =
    elim (close_and_open p now expires_at db) [
      | err inspection_close_state ↦ ok (booking_state_changed, db)
      | err e ↦ err e
      | ok (some child, db') ↦ ok (created child, db')
      | ok (none, db') ↦ ok (resolve_lost_guard p db', db')
    ]

-- `rehireInspectingWorker`: a booking that is not hireable throws, so nothing is written.
unfoldable pub rehire_inspecting_worker :
    (id worker final_price platform_fee now : ℕ) → Transaction (Unit {0})
rehire_inspecting_worker id worker final_price platform_fee now db =
    elim (booking_update_if id is_hireable
      (λ b. record b {
        worker_profile_id = some worker;
        status = BookingStatus.accepted;
        accepted_at = some now;
        final_price = some final_price;
        platform_fee = some platform_fee;
      })
      db) [
        | none ↦ err worker_unavailable
        | some db₁ ↦ do
          let db₂ =
              add_history id BookingStatus.accepted "Client re-hired the original inspecting Ustaad"
                db₁
          db₃ ← occupy_worker worker (record db₂ {
            bids =
                update_many (λ _ (b : Bid). b.booking_id == id && is_bid_pending b.status)
                  (λ (b : Bid). record b { status = BidStatus.rejected }) db₂.bids;
          })
          ok (tt, db₃)
      ]
