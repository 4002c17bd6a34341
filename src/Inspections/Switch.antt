-- ===== src/Inspections/Switch.antt =====
-- `findOtherUstaad` and `hireInspectingWorker` of
-- backend/src/modules/inspection-reports/inspection-reports.service.ts, with
-- `closeInspectionAndOpenRepairBidding` and `rehireInspectingWorker` of
-- backend/src/modules/bookings/bookings.service.ts. The description that is composed of the
-- report's texts is an argument.
use Prim.Native.String.{String}
use easyrepair.Prelude.{ℕ, ◌+◌, Bool, not, ◌||◌, Option, none, some, or_else, is_row}
use easyrepair.Schema.{
  is_accepted_repair, is_closed, is_find_other, WorkerProfile, Booking, InspectionReport,
}
use easyrepair.Store.{
  Reason, booking_not_found, already_decided, inspection_state_changed, inspector_busy,
  worker_no_longer_available, not_finding_other, not_found, bad_request, conflict, notify,
  notify_client_job_completed, broadcast_job, schedule_expiry, ensure_conversation,
}
use easyrepair.Store.Actions.{
  Action, ◌>>=◌, ◌>>◌, reject_if, emit, emit_to, reload_booking, worker_user, pure, raise, reads,
  require, transact, rereads,
}
use easyrepair.Bookings.Lookups.{if_unavailable}
use easyrepair.Commission.{calculate_platform_fee}
use easyrepair.Bookings.Repair
use easyrepair.Bookings.Repair.{
  CloseInspectionParams, CloseInspectionOutcome, created, already_done, conflicting_decision,
  link_missing, booking_state_changed, find_repair_booking,
  close_inspection_and_open_repair_bidding,
}
use easyrepair.Bookings.Cancellation.{booking_expiry_ms}
use easyrepair.Inspections.Transactions.{mark_accepted}
use easyrepair.Inspections.Decisions.{authorize_report}

-- The `switch` on the outcome.
announce_switch : (now original : ℕ) → CloseInspectionOutcome → Action ℕ
announce_switch now original (created child) = do
  emit (schedule_expiry child (now + booking_expiry_ms))
  emit (broadcast_job child)
  emit (notify_client_job_completed original "INSPECTION_BEFORE_SWITCH")
  pure child
announce_switch now original (already_done child) = do
  emit (broadcast_job child)
  emit (notify_client_job_completed original "INSPECTION_BEFORE_SWITCH")
  pure child
announce_switch now original (conflicting_decision d) = raise (bad_request already_decided)
announce_switch now original CloseInspectionOutcome.link_missing =
    raise (conflict Reason.link_missing)
announce_switch now original booking_state_changed = raise (conflict inspection_state_changed)

-- `closeInspectionAndOpenRepairBidding`
unfoldable pub close_and_switch : (now : ℕ) → CloseInspectionParams → Action ℕ
unfolding announce_switch
close_and_switch now p =
    transact (close_inspection_and_open_repair_bidding p now (now + booking_expiry_ms))
    >>= announce_switch now p.original_booking_id

abbrev pub switch_params :
    (id : ℕ) → (description : String) → Booking → ℕ × InspectionReport → CloseInspectionParams
switch_params id description booking (report_id, report) = record {
  report_id = report_id;
  original_booking_id = id;
  inspecting_worker_profile_id = report.worker_profile_id;
  client_profile_id = booking.client_profile_id;
  category_id = booking.category_id;
  title = booking.title;
  description = description;
  place = booking.place;
}

switch_authorized :
    (now id : ℕ) → (description : String) → Booking × (ℕ × InspectionReport) → Action ℕ
unfolding close_and_switch
switch_authorized now id description (booking, report) = do
  reject_if (is_accepted_repair report.1.decision_status || is_closed report.1.decision_status)
      (bad_request already_decided)
  close_and_switch now (switch_params id description booking report)

-- `findOtherUstaad`, with the repair booking's number for the response's `linkedRepairBookingId`.
unfoldable pub find_other_ustaad : (now user id : ℕ) → (description : String) → Action ℕ
unfolding switch_authorized
find_other_ustaad now user id description =
    authorize_report user id >>= switch_authorized now id description

-- `inspector?.currentlyWorking`
abbrev pub is_inspector_busy : Option WorkerProfile → Bool
is_inspector_busy = is_row (λ (w : WorkerProfile). w.currently_working)

-- `rehireInspectingWorker`
unfoldable pub rehire : (now user id worker repair_quote_total labour_cost : ℕ) → Action Booking
rehire now user id worker repair_quote_total labour_cost = do
  reject_if (← reads (λ db. is_inspector_busy (db.workers worker))) (conflict inspector_busy)
  if_unavailable (conflict worker_no_longer_available) (
      transact (
        Repair.rehire_inspecting_worker id worker repair_quote_total
          (calculate_platform_fee labour_cost) now))
  updated ← reload_booking id
  hired ← rereads (worker_user updated)
  emit_to hired (λ u. notify u "booking.assigned" id)
  emit_to hired (ensure_conversation user)
  pure updated

-- The number of the inspection booking: the linked repair booking's source, or the booking itself.
inspection_id : ℕ → Booking → ℕ
inspection_id id booking = or_else booking.source_inspection_booking_id id

-- The open booking: the linked repair booking, or the inspection itself.
target_id : ℕ → Option (ℕ × Booking) → ℕ
target_id id none = id
target_id id (some (child, _)) = child

-- The report of an old-style row, which has no repair booking, becomes ACCEPTED_REPAIR.
collapse_report : (now report : ℕ) → Option (ℕ × Booking) → Action (Unit {0})
collapse_report now report none = transact (mark_accepted report is_find_other now) >> pure tt
collapse_report now report (some _) = pure tt

hire_reported : (now user id : ℕ) → Booking × (ℕ × InspectionReport) → Action (Unit {0})
unfolding target_id collapse_report rehire
hire_reported now user id (booking, (report_id, report)) = do
  reject_if (not (is_find_other report.decision_status)) (bad_request not_finding_other)
  repair ← reads (find_repair_booking id)
  rehire now user (target_id id repair) report.worker_profile_id report.repair_quote_total
      report.labour_cost
  collapse_report now report_id repair

-- `hireInspectingWorker`
unfoldable pub hire_inspecting_worker : (now user id : ℕ) → Action (Unit {0})
unfolding inspection_id hire_reported
hire_inspecting_worker now user id = do
  ctx ← require (← reads (λ db. db.bookings id)) (not_found booking_not_found)
  r ← authorize_report user (inspection_id id ctx)
  hire_reported now user (inspection_id id ctx) r
