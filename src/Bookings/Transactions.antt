-- ===== src/Bookings/Transactions.antt =====
-- The transactions of backend/src/modules/bookings/bookings.repository.ts that move a booking
-- through its life. Each is one `$transaction`, so it happens whole or not at all, in any order
-- with those of other requests. `now` is `new Date()`.
use Prim.Native.String.{String, ◌++◌ as str_append}
use easyrepair.Prelude.{
  ℕ, Bool, true, false, not, ◌&&◌, Option, none, some, List, [], ◌∷◌, ◌==◌, if◌then◌else◌, is_some,
  or_else, or_other, update_many,
}
use easyrepair.Schema.{
  BookingStatus, BidStatus, InspectionDecisionStatus, CancelledByRole, Booking, Bid,
  InspectionReport, BookingWorkerExclusion, is_pending, is_accepted, is_en_route, is_arrived,
  is_bid_rejected,
}
use easyrepair.Store.{
  Result, ok, Db, Transaction, ◌>>=◌, booking_update_if, booking_update, add_history,
  release_worker, occupy_worker,
}

-- `if (workerProfileId)` before the release of `cancelBooking`.
release_if_any : Option ℕ → Db → Result Db
release_if_any none db = ok db
release_if_any (some w) db = release_worker w db

-- `cancelBooking`; `from` is `status IN (fromStatuses)`. The result is `changed`.
unfoldable pub cancel_booking :
    (id : ℕ)
    → (from : BookingStatus → Bool) → (reason : Option String) → (worker : Option ℕ)
    → CancelledByRole
    → (now : ℕ) → Transaction Bool
unfolding release_if_any
cancel_booking id from reason worker role now db =
    let note = or_else reason "Cancelled by client" in
    elim (booking_update_if id (λ b. from b.status)
      (λ b. record b {
        status = BookingStatus.cancelled;
        cancelled_at = some now;
        cancellation_reason = some note;
        cancelled_by_role = some role;
      })
      db) [
        | none ↦ ok (false, db)
        | some db₁ ↦ do
          db₂ ← release_if_any worker (add_history id BookingStatus.cancelled note db₁)
          ok (true, db₂)
      ]

-- The `where` of every hire: still PENDING and nobody hired.
abbrev pub is_hireable : Booking → Bool
is_hireable b = is_pending b.status && not (is_some b.worker_profile_id)

-- `assignWorkerToBooking`
unfoldable pub assign_worker_to_booking :
    (id worker : ℕ) → (final_price platform_fee : Option ℕ) → (now : ℕ) → Transaction Bool
assign_worker_to_booking id worker final_price platform_fee now db =
    elim (booking_update_if id is_hireable
      (λ b. record b {
        worker_profile_id = some worker;
        status = BookingStatus.accepted;
        accepted_at = some now;
        final_price = or_other final_price b.final_price;
        platform_fee = or_other platform_fee b.platform_fee;
      })
      db) [
        | none ↦ ok (false, db)
        | some db₁ ↦ do
          db₂ ←
              occupy_worker worker
                (add_history id BookingStatus.accepted "Worker assigned by client" db₁)
          ok (true, db₂)
      ]

-- `_guardedTransition`, whose callers pass no `extra`.
guarded_transition :
    (id : ℕ)
    → (from : BookingStatus → Bool) → (change : Booking → Booking) → BookingStatus
    → String
    → Transaction Bool
guarded_transition id from change status note db =
    elim (booking_update_if id (λ b. from b.status) change db) [
      | none ↦ ok (false, db)
      | some db₁ ↦ ok (true, add_history id status note db₁)
    ]

unfoldable pub mark_en_route : (id now : ℕ) → Transaction Bool
unfolding guarded_transition
mark_en_route id now =
    guarded_transition id is_accepted
      (λ b. record b { status = BookingStatus.en_route; en_route_at = some now })
      BookingStatus.en_route "Worker is on the way"

unfoldable pub mark_arrived : (id now : ℕ) → Transaction Bool
unfolding guarded_transition
mark_arrived id now =
    guarded_transition id is_en_route
      (λ b. record b { status = BookingStatus.arrived; arrived_at = some now })
      BookingStatus.arrived "Worker has arrived"

unfoldable pub mark_in_progress : (id now : ℕ) → Transaction Bool
unfolding guarded_transition
mark_in_progress id now =
    guarded_transition id is_arrived
      (λ b. record b { status = BookingStatus.in_progress; started_at = some now })
      BookingStatus.in_progress "Job started by worker"

-- `completeBookingLifecycle`
unfoldable pub complete_booking_lifecycle :
    (id worker : ℕ) → (from : BookingStatus → Bool) → (now : ℕ) → Transaction Bool
complete_booking_lifecycle id worker from now db =
    elim (booking_update_if id (λ b. from b.status)
      (λ b. record b { status = BookingStatus.completed; completed_at = some now }) db) [
        | none ↦ ok (false, db)
        | some db₁ ↦ do
          db₂ ←
              release_worker worker
                (add_history id BookingStatus.completed "Job marked as completed by worker" db₁)
          ok (true, db₂)
      ]

-- `workerCancelBooking`: the write names the booking only, whatever its status is by now.
unfoldable pub worker_cancel_booking : (id worker : ℕ) → String → (now : ℕ) → Transaction (Unit {0})
worker_cancel_booking id worker reason now db = do
  db₁ ←
      booking_update id
        (λ b. record b {
          status = BookingStatus.cancelled;
          cancelled_at = some now;
          cancellation_reason = some reason;
          cancelled_by_role = some CancelledByRole.worker;
        })
        db
  db₂ ←
      release_worker worker
        (add_history id BookingStatus.cancelled (str_append "Worker cancelled: " reason) db₁)
  ok (tt, db₂)

-- `bookingWorkerExclusion.upsert` by booking and worker.
unfoldable pub upsert_exclusion :
    (booking worker : ℕ) → String → List BookingWorkerExclusion → List BookingWorkerExclusion
upsert_exclusion booking worker reason [] =
    record { booking_id = booking; worker_profile_id = worker; reason = reason } ∷ []
upsert_exclusion booking worker reason (e ∷ es) =
    if e.booking_id == booking && e.worker_profile_id == worker
    then record e { reason = reason } ∷ es
    else e ∷ upsert_exclusion booking worker reason es

-- `reopenAfterWorkerCancellation`
unfoldable pub reopen_after_worker_cancellation :
    (id cancelled_worker : ℕ) → String → (now expires_at : ℕ) → Transaction (Unit {0})
reopen_after_worker_cancellation id cancelled_worker reason now expires_at db = do
  db₁ ←
      booking_update id
        (λ b. record b {
          worker_profile_id = none;
          status = BookingStatus.pending;
          live_started_at = some now;
          expires_at = some expires_at;
        })
        db
  let db₂ = record db₁ {
    exclusions = upsert_exclusion id cancelled_worker reason db₁.exclusions;
    bids =
        update_many
          (λ _ (b : Bid).
            b.booking_id == id
            && (is_bid_rejected b.status && not (b.worker_profile_id == cancelled_worker)))
          (λ (b : Bid). record b { status = BidStatus.pending }) db₁.bids;
    reports =
        update_many (λ _ (r : InspectionReport). r.booking_id == id)
          (λ (r : InspectionReport). record r {
            decision_status = InspectionDecisionStatus.find_other_ustaad;
          })
          db₁.reports;
  }
  ok (tt, add_history id BookingStatus.pending "Reopened after worker cancellation" db₂)

-- `relistBooking`
unfoldable pub relist_booking : (id now expires_at : ℕ) → Transaction (Unit {0})
relist_booking id now expires_at db = do
  db₁ ←
      booking_update id
        (λ b. record b {
          status = BookingStatus.pending;
          live_started_at = some now;
          expires_at = some expires_at;
          relisted_at = some now;
        })
        db
  ok (tt, add_history id BookingStatus.pending "Client relisted booking (\"Make Live Again\")" db₁)

-- The transaction of `expireBooking` in booking-expiry.service.ts.
unfoldable pub expire_if_pending : (id : ℕ) → Transaction Bool
unfolding guarded_transition
expire_if_pending id =
    guarded_transition id is_pending (λ b. record b { status = BookingStatus.expired })
      BookingStatus.expired "Auto-expired after 72 hours with no worker hired"
