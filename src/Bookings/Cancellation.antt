-- ===== src/Bookings/Cancellation.antt =====
-- Cancellation, reopening and relisting in backend/src/modules/bookings/bookings.service.ts, and the
-- auto-expiry of booking-expiry.service.ts.
use Prim.Native.String.{String}
use easyrepair.Prelude.{
  ℕ, ◌+◌, ◌*◌, Bool, true, false, not, ◌&&◌, ◌||◌, Option, none, some, ◌==◌, if◌then◌else◌, is_some,
  or_else, find_first, is_row,
}
use easyrepair.Schema.{
  BookingStatus, CancelledByRole, Booking, Bid, is_pending, is_cancelled, is_expired, is_bidding,
  is_bid_accepted, is_by_worker,
}
use easyrepair.Store.{
  Db, bad_request, wrong_status, not_reopenable, no_previous_worker, not_expired, notify,
  broadcast_job, schedule_expiry, cancel_expiry, match_open_jobs,
}
use easyrepair.Store.Actions.{
  Action, pure, raise, reads, rereads, require, transact, reject_if, emit, emit_to, reload_booking,
  worker_user, client_user, ◌>>=◌, ◌>>◌,
}
use easyrepair.Bookings.Transactions
use easyrepair.Bookings.Lookups.{authorize_client, authorize_assigned_worker}

-- BOOKING_EXPIRY_MS
abbrev pub booking_expiry_ms : ℕ
booking_expiry_ms = 72 * 60 * 60 * 1000

-- `clientCancellableStatuses`
abbrev pub is_client_cancellable : BookingStatus → Bool
is_client_cancellable BookingStatus.pending = true
is_client_cancellable BookingStatus.accepted = true
is_client_cancellable _ = false

-- What follows the transaction: a lost race is judged by the row read again.
unfoldable pub settle_cancel : (id : ℕ) → (changed : Bool) → Booking → Action Booking
settle_cancel id true updated = do
  emit (cancel_expiry id)
  user ← rereads (worker_user updated)
  emit_to user (λ u. notify u "booking.cancelled.by_client" id)
  pure updated
settle_cancel id false updated =
    if is_cancelled updated.status then pure updated else raise (bad_request wrong_status)

unfoldable pub commit_cancel : (now id : ℕ) → String → Booking → Action Booking
unfolding settle_cancel
commit_cancel now id reason booking = do
  changed ← transact (
      Transactions.cancel_booking id is_client_cancellable (some reason) booking.worker_profile_id
        CancelledByRole.client now)
  updated ← reload_booking id
  settle_cancel id changed updated

unfoldable pub cancel_authorized : (now id : ℕ) → String → Booking → Action Booking
unfolding commit_cancel
cancel_authorized now id reason booking =
    if is_cancelled booking.status
    then pure booking
    else reject_if (not (is_client_cancellable booking.status)) (bad_request wrong_status)
      >> commit_cancel now id reason booking

unfoldable pub cancel_booking : (now user id : ℕ) → (reason : String) → Action Booking
unfolding cancel_authorized
cancel_booking now user id reason = authorize_client user id >>= cancel_authorized now id reason

-- `cancellable` of `workerCancelBooking`
abbrev pub is_worker_cancellable : BookingStatus → Bool
is_worker_cancellable BookingStatus.accepted = true
is_worker_cancellable BookingStatus.en_route = true
is_worker_cancellable BookingStatus.arrived = true
is_worker_cancellable _ = false

unfoldable pub worker_cancel_authorized : (now id : ℕ) → String → ℕ × Booking → Action Booking
worker_cancel_authorized now id reason (profile, booking) = do
  reject_if (not (is_worker_cancellable booking.status)) (bad_request wrong_status)
  transact (Transactions.worker_cancel_booking id profile reason now)
  updated ← reload_booking id
  user ← rereads (client_user updated)
  emit_to user (λ u. notify u "booking.cancelled.by_worker" id)
  emit (match_open_jobs profile)
  pure updated

unfoldable pub worker_cancel_booking : (now user id : ℕ) → (reason : String) → Action Booking
unfolding worker_cancel_authorized
worker_cancel_booking now user id reason =
    authorize_assigned_worker user id >>= worker_cancel_authorized now id reason

abbrev pub is_cancelled_by_worker : Booking → Bool
is_cancelled_by_worker b = is_cancelled b.status && is_row is_by_worker b.cancelled_by_role

unfoldable pub commit_reopen : (now id : ℕ) → Booking → (cancelled_worker : ℕ) → Action Booking
commit_reopen now id booking cancelled_worker = do
  transact (
      Transactions.reopen_after_worker_cancellation id cancelled_worker
        (or_else booking.cancellation_reason "Worker cancelled") now (now + booking_expiry_ms))
  updated ← reload_booking id
  emit (schedule_expiry id (now + booking_expiry_ms))
  emit (broadcast_job id)
  pure updated

unfoldable pub reopen_authorized : (now id : ℕ) → Booking → Action Booking
unfolding commit_reopen
reopen_authorized now id booking =
    reject_if (not (is_cancelled_by_worker booking)) (bad_request not_reopenable)
    >> (require booking.worker_profile_id (bad_request no_previous_worker)
        >>= commit_reopen now id booking)

unfoldable pub reopen_after_worker_cancellation : (now user id : ℕ) → Action Booking
unfolding reopen_authorized
reopen_after_worker_cancellation now user id = authorize_client user id >>= reopen_authorized now id

unfoldable pub relist_authorized : (now user id : ℕ) → Booking → Action Booking
relist_authorized now user id booking = do
  reject_if (not (is_expired booking.status)) (bad_request not_expired)
  transact (Transactions.relist_booking id now (now + booking_expiry_ms))
  updated ← reload_booking id
  emit (schedule_expiry id (now + booking_expiry_ms))
  emit (notify user "booking.relisted" id)
  emit (broadcast_job id)
  pure updated

unfoldable pub relist_booking : (now user id : ℕ) → Action Booking
unfolding relist_authorized
relist_booking now user id = authorize_client user id >>= relist_authorized now user id

pub data ExpireBookingOutcome : Type 0 where
  expired skipped : ExpireBookingOutcome

-- `findFirst({ where: { bookingId, status: ACCEPTED } })` on the bids.
unfoldable pub find_accepted_bid : ℕ → Db → Option (ℕ × Bid)
find_accepted_bid id db =
    find_first (λ _ (b : Bid). b.booking_id == id && is_bid_accepted b.status) db.next_bid db.bids

unfoldable pub expire_read : (id : ℕ) → Booking → Action ExpireBookingOutcome
unfolding find_accepted_bid
expire_read id booking = do
  accepted ← reads (find_accepted_bid id)
  if not (is_pending booking.status) || (is_bidding booking.lane && is_some accepted)
      then pure skipped
      else do
        transitioned ← transact (Transactions.expire_if_pending id)
        user ← rereads (client_user booking)
        if transitioned
            then (do emit_to user (λ u. notify u "booking.expired" id); pure expired)
            else pure skipped

unfoldable pub expire_found : (id : ℕ) → Option Booking → Action ExpireBookingOutcome
unfolding expire_read
expire_found id none = pure skipped
expire_found id (some booking) = expire_read id booking

-- `expireBooking`
unfoldable pub expire_booking : (id : ℕ) → Action ExpireBookingOutcome
unfolding expire_found
expire_booking id = reads (λ db. db.bookings id) >>= expire_found id
