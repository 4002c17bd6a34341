-- ===== src/Bookings/Hiring.antt =====
-- `assignWorker` of backend/src/modules/bookings/bookings.service.ts: the client hires a worker
-- for a STANDARD or INSPECTION booking.
pub mod Safety
use easyrepair.Prelude.{ℕ, not, ◌&&◌, ◌||◌, if◌then◌else◌, is_some, holds_id}
use easyrepair.Schema.{
  Booking, WorkerProfile, is_pending, is_standard, is_inspection, is_online, is_approved,
}
use easyrepair.Eligibility.{missing_or_older_than}
use easyrepair.Store.{
  bad_request, not_found, conflict, wrong_status, booking_assigned, open_for_bidding, wrong_lane,
  not_eligible, worker_not_found, worker_not_available, worker_profile_incomplete,
  worker_just_hired, notify, cancel_expiry, ensure_conversation,
}
use easyrepair.Store.Actions.{
  Action, pure, raise, reads, require, transact, reject_if, emit, reload_booking, ◌>>=◌, ◌>>◌,
}
use easyrepair.Bookings.Transactions.{assign_worker_to_booking}
use easyrepair.Bookings.Lookups.{
  report_of, decided_find_other, is_excluded, authorize_client, if_unavailable, hire_price,
  hire_fee,
}

-- The checks between the idempotent return and the transaction, in the source's order.
unfoldable pub check_hire : (stale_ms now id worker_id : ℕ) → Booking → Action WorkerProfile
check_hire stale_ms now id worker_id booking = do
  reject_if (not (is_pending booking.status)) (bad_request wrong_status)
  reject_if (is_some booking.worker_profile_id) (conflict booking_assigned)
  report ← reads (report_of id)
  reject_if (decided_find_other report) (bad_request open_for_bidding)
  reject_if (not (is_standard booking.lane) && not (is_inspection booking.lane))
      (bad_request wrong_lane)
  reject_if (← reads (λ db. is_excluded id worker_id db.exclusions)) (bad_request not_eligible)
  worker ← require (← reads (λ db. db.workers worker_id)) (not_found worker_not_found)
  reject_if (not (is_online worker.availability_status)) (bad_request worker_not_available)
  reject_if (missing_or_older_than stale_ms now worker.last_seen_at)
      (bad_request worker_not_available)
  reject_if (not worker.profile_completed || not (is_approved worker.onboarding_status))
      (bad_request worker_profile_incomplete)
  reject_if worker.currently_working (conflict worker_just_hired)
  pure worker

-- After a lost race the booking may already be this worker's.
unfoldable pub settle_lost_hire : ℕ → Booking → Action Booking
settle_lost_hire worker_id updated =
    if holds_id updated.worker_profile_id worker_id
    then pure updated
    else raise (conflict booking_assigned)

unfoldable pub announce_hire : (user id : ℕ) → WorkerProfile → Booking → Action Booking
announce_hire user id worker updated = do
  emit (cancel_expiry id)
  emit (notify worker.user_id "booking.assigned" id)
  emit (ensure_conversation user worker.user_id)
  pure updated

-- The transaction, and what follows it.
unfoldable pub commit_hire : (now user id worker_id : ℕ) → Booking → WorkerProfile → Action Booking
unfolding settle_lost_hire announce_hire
commit_hire now user id worker_id booking worker = do
  changed ←
      if_unavailable (conflict worker_just_hired) (
        transact
          (assign_worker_to_booking id worker_id (hire_price booking) (hire_fee booking) now))
  updated ← reload_booking id
  if changed then announce_hire user id worker updated else settle_lost_hire worker_id updated

-- What follows the authorization: a booking that is already this worker's is returned as it is.
unfoldable pub hire_for : (stale_ms now user id worker_id : ℕ) → Booking → Action Booking
hire_for stale_ms now user id worker_id booking =
    if holds_id booking.worker_profile_id worker_id
    then pure booking
    else check_hire stale_ms now id worker_id booking >>= commit_hire now user id worker_id booking

-- `stale_ms` is WORKER_PRESENCE_STALE_MS.
unfoldable pub assign_worker : (stale_ms now user id worker_id : ℕ) → Action Booking
unfolding hire_for
assign_worker stale_ms now user id worker_id =
    authorize_client user id >>= hire_for stale_ms now user id worker_id
