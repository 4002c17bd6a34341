-- ===== src/Bookings/Progress.antt =====
-- The life of an assigned job in backend/src/modules/bookings/bookings.service.ts: on the way,
-- arrived, started, completed, and the close after an inspection.
use Prim.Native.String.{String}
use easyrepair.Prelude.{ℕ, Bool, true, false, not, Option, none, some, if◌then◌else◌}
use easyrepair.Schema.{
  BookingStatus, Booking, InspectionReport, is_accepted, is_en_route, is_arrived, is_in_progress,
  is_completed, is_inspection, is_undecided, is_closed,
}
use easyrepair.Store.{
  bad_request, not_found, wrong_status, wrong_lane, start_inspection_first, report_missing,
  waiting_for_client, already_closed, no_assigned_worker, booking_not_found, Transaction, notify,
  notify_client_job_completed,
}
use easyrepair.Store.Actions.{
  Action, pure, raise, reads, rereads, require, transact, reject_if, emit, emit_to, reload_booking,
  worker_user, client_user, ◌>>=◌, ◌>>◌,
}
use easyrepair.Bookings.Transactions
use easyrepair.Bookings.Transactions.{complete_booking_lifecycle}
use easyrepair.Bookings.Lookups.{authorize_assigned_worker, report_of}

-- What follows the transaction: a lost race is judged by the row read again.
unfoldable pub settle_advance :
    (already : BookingStatus → Bool)
    → (announce : Booking → Action (Unit {0})) → (changed : Bool) → Booking
    → Action Booking
settle_advance already announce changed updated =
    if changed
    then announce updated >> pure updated
    else if already updated.status
    then pure updated
    else raise (bad_request wrong_status)

unfoldable pub commit_advance :
    (already : BookingStatus → Bool)
    → (write : Transaction Bool) → (announce : Booking → Action (Unit {0})) → (id : ℕ)
    → Action Booking
unfolding settle_advance
commit_advance already write announce id = do
  changed ← transact write
  updated ← reload_booking id
  settle_advance already announce changed updated

-- What each lifecycle request does after its authorization: a booking that is already there is
-- returned, and one in another status is refused.
unfoldable pub advance :
    (already expected : BookingStatus → Bool)
    → (write : Transaction Bool) → (announce : Booking → Action (Unit {0})) → (id : ℕ) → Booking
    → Action Booking
unfolding commit_advance
advance already expected write announce id booking =
    if already booking.status
    then pure booking
    else reject_if (not (expected booking.status)) (bad_request wrong_status)
      >> commit_advance already write announce id

-- The notification of the client.
unfoldable pub notify_client : (event_key : String) → (id : ℕ) → Booking → Action (Unit {0})
notify_client event_key id updated = do
  user ← rereads (client_user updated)
  emit_to user (λ u. notify u event_key id)

unfoldable pub go_on_my_way : (now id : ℕ) → ℕ × Booking → Action Booking
unfolding advance notify_client
go_on_my_way now id r =
    advance is_en_route is_accepted (Transactions.mark_en_route id now)
      (notify_client "booking.status.en_route" id) id r.1

-- `markOnMyWay`
unfoldable pub mark_on_my_way : (now user id : ℕ) → Action Booking
unfolding go_on_my_way
mark_on_my_way now user id = authorize_assigned_worker user id >>= go_on_my_way now id

unfoldable pub arrive : (now id : ℕ) → ℕ × Booking → Action Booking
unfolding advance notify_client
arrive now id r =
    advance is_arrived is_en_route (Transactions.mark_arrived id now)
      (notify_client "booking.status.arrived" id) id r.1

unfoldable pub mark_arrived : (now user id : ℕ) → Action Booking
unfolding arrive
mark_arrived now user id = authorize_assigned_worker user id >>= arrive now id

unfoldable pub start : (now id : ℕ) → ℕ × Booking → Action Booking
unfolding advance notify_client
start now id r =
    advance is_in_progress is_arrived (Transactions.mark_in_progress id now)
      (notify_client "booking.status.in_progress" id) id r.1

unfoldable pub start_job : (now user id : ℕ) → Action Booking
unfolding start
start_job now user id = authorize_assigned_worker user id >>= start now id

-- `completable` of `completeJob`
abbrev pub is_completable : BookingStatus → Bool
is_completable BookingStatus.accepted = true
is_completable BookingStatus.en_route = true
is_completable BookingStatus.arrived = true
is_completable BookingStatus.in_progress = true
is_completable _ = false

unfoldable pub check_report : Option (ℕ × InspectionReport) → Action (Unit {0})
check_report none = raise (bad_request report_missing)
check_report (some (_, report)) = do
  reject_if (is_undecided report.decision_status) (bad_request waiting_for_client)
  reject_if (is_closed report.decision_status) (bad_request already_closed)

unfoldable pub check_started_and_decided : (id : ℕ) → Booking → Action (Unit {0})
unfolding check_report
check_started_and_decided id booking = do
  reject_if (not (is_in_progress booking.status)) (bad_request start_inspection_first)
  report ← reads (report_of id)
  check_report report

-- The INSPECTION block of `completeJob`.
unfoldable pub check_inspection_done : (id : ℕ) → Booking → Action (Unit {0})
unfolding check_started_and_decided
check_inspection_done id booking =
    if is_inspection booking.lane then check_started_and_decided id booking else pure tt

unfoldable pub announce_completion :
    (id : ℕ) → (kind event_key : String) → Booking → Action (Unit {0})
announce_completion id kind event_key updated = do
  emit (notify_client_job_completed id kind)
  user ← rereads (worker_user updated)
  emit_to user (λ u. notify u event_key id)

unfoldable pub complete_checked : (now id profile : ℕ) → Booking → Action Booking
unfolding advance announce_completion
complete_checked now id profile booking =
    advance is_completed is_completable (complete_booking_lifecycle id profile is_completable now)
      (announce_completion id "NORMAL" "booking.completed") id booking

unfoldable pub complete_authorized : (now id : ℕ) → ℕ × Booking → Action Booking
unfolding complete_checked
complete_authorized now id (profile, booking) =
    if is_completed booking.status
    then pure booking
    else check_inspection_done id booking >> complete_checked now id profile booking

unfoldable pub complete_job : (now user id : ℕ) → Action Booking
unfolding complete_authorized
complete_job now user id = authorize_assigned_worker user id >>= complete_authorized now id

-- The rest of `completeAfterInspectionClose`, once the booking has a worker.
unfoldable pub close_with_worker : (now id : ℕ) → Booking → ℕ → Action Booking
unfolding advance announce_completion
close_with_worker now id booking worker =
    advance is_completed is_in_progress (complete_booking_lifecycle id worker is_in_progress now)
      (announce_completion id "NORMAL" "booking.inspection.closed") id booking

unfoldable pub close_in_progress : (now id : ℕ) → Booking → Action Booking
unfolding close_with_worker
close_in_progress now id booking = do
  reject_if (not (is_in_progress booking.status)) (bad_request wrong_status)
  worker ← require booking.worker_profile_id (bad_request no_assigned_worker)
  close_with_worker now id booking worker

-- `completeAfterInspectionClose`
unfoldable pub complete_after_inspection_close : (now id : ℕ) → Action Booking
unfolding close_in_progress
complete_after_inspection_close now id = do
  booking ← require (← reads (λ db. db.bookings id)) (not_found booking_not_found)
  reject_if (not (is_inspection booking.lane)) (bad_request wrong_lane)
  if is_completed booking.status then pure booking else close_in_progress now id booking
