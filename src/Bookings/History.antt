-- ===== src/Bookings/History.antt =====
-- The status history of a booking: what the transactions append to it.
use easyrepair.Prelude.{
  ℕ, ◌≡◌, ◌⊎◌, inl, inr, Bool, true, Option, none, some, List, [], ◌∷◌, arith, Option-cases,
  is_some,
}
use Prim.Native.String.{String}
use easyrepair.Schema.{BookingStatusHistory, BookingStatus, Booking, CancelledByRole}
use easyrepair.Store.{Result, ok, err, Db}
use easyrepair.Bookings.Transactions.{
  cancel_booking, assign_worker_to_booking, mark_en_route, mark_arrived, mark_in_progress,
  complete_booking_lifecycle, worker_cancel_booking, reopen_after_worker_cancellation,
  relist_booking, expire_if_pending,
}
use easyrepair.Bids.Transactions.{accept_bid}

-- What the newest row says: its booking and status, and the rows before it.
abbrev pub newest : List BookingStatusHistory → Option (ℕ × BookingStatus)
newest [] = none
newest (h ∷ hs) = some (h.booking_id, h.status)

abbrev pub older : List BookingStatusHistory → List BookingStatusHistory
older [] = []
older (h ∷ hs) = hs

abbrev pub status_of : ℕ → Option Booking → Option (ℕ × BookingStatus)
status_of id none = none
status_of id (some b) = some (id, b.status)

-- One row is appended, and it has the status that the booking now has.
pub record IsLogged (id : ℕ) (db db' : Db) : Type 0 where
  pub found : is_some (db'.bookings id) ≡ true
  pub same : newest db'.history ≡ status_of id (db'.bookings id)
  pub appended : older db'.history ≡ db.history

-- A transaction that throws, that returns with nothing written, or that is logged.
abbrev pub Logs : {A : Type 0} → (id : ℕ) → Db → Result (A × Db) → Type 0
Logs id db (err e) = Unit
Logs id db (ok r) = (r.1 ≡ db) ⊎ IsLogged id db r.1

lifecycle-Logs :
    (id now worker : ℕ) (from : BookingStatus → Bool) (db : Db)
    → Logs id db (mark_en_route id now db)
      × Logs id db (mark_arrived id now db)
      × Logs id db (mark_in_progress id now db)
      × Logs id db (complete_booking_lifecycle id worker from now db)
      × Logs id db (expire_if_pending id db)
unfolding mark_en_route mark_arrived mark_in_progress complete_booking_lifecycle expire_if_pending
lifecycle-Logs id now worker from db = elim (Option-cases (db.bookings id)) [
  | inl missing ↦ ground arith
  | inr (b, found) ↦ ground arith
]

hire-Logs :
    (id bid worker price fee now : ℕ) (direct_price direct_fee : Option ℕ) (db : Db)
    → Logs id db (assign_worker_to_booking id worker direct_price direct_fee now db)
      × Logs id db (accept_bid bid id worker price fee now db)
unfolding assign_worker_to_booking accept_bid
hire-Logs id bid worker price fee now direct_price direct_fee db =
    elim (Option-cases (db.bookings id)) [
      | inl missing ↦ ground arith
      | inr (b, found) ↦ ground arith
    ]

end-Logs :
    (id : ℕ) (from : BookingStatus → Bool) (reason : String) (why : Option String)
    (released : Option ℕ) (worker : ℕ) (role : CancelledByRole) (now expires_at : ℕ) (db : Db)
    → Logs id db (cancel_booking id from why released role now db)
      × Logs id db (worker_cancel_booking id worker reason now db)
      × Logs id db (reopen_after_worker_cancellation id worker reason now expires_at db)
      × Logs id db (relist_booking id now expires_at db)
unfolding cancel_booking worker_cancel_booking reopen_after_worker_cancellation relist_booking
end-Logs id from reason why released worker role now expires_at db =
    elim (Option-cases (db.bookings id)) [
      | inl missing ↦ ground arith
      | inr (b, found) ↦ ground arith
    ]

-- Each transaction on a booking's status (`markEnRoute`, `markArrived`, `markInProgress`,
-- `completeBookingLifecycle`, the expiry, `assignWorkerToBooking`, `acceptBid`, `cancelBooking`,
-- `workerCancelBooking`, `reopenAfterWorkerCancellation`, `relistBooking`) throws, or returns with
-- nothing written, or appends one history row, of this booking and with the status that the booking has
-- then.
pub transactions-Logs :
    (id bid now worker price fee : ℕ) (direct_price direct_fee : Option ℕ)
    (from : BookingStatus → Bool) (reason : String) (why : Option String) (released : Option ℕ)
    (role : CancelledByRole) (expires_at : ℕ) (db : Db)
    → Logs id db (mark_en_route id now db)
      × Logs id db (mark_arrived id now db)
      × Logs id db (mark_in_progress id now db)
      × Logs id db (complete_booking_lifecycle id worker from now db)
      × Logs id db (expire_if_pending id db)
      × Logs id db (assign_worker_to_booking id worker direct_price direct_fee now db)
      × Logs id db (accept_bid bid id worker price fee now db)
      × Logs id db (cancel_booking id from why released role now db)
      × Logs id db (worker_cancel_booking id worker reason now db)
      × Logs id db (reopen_after_worker_cancellation id worker reason now expires_at db)
      × Logs id db (relist_booking id now expires_at db)
transactions-Logs id bid now worker price fee direct_price direct_fee from reason why released role
      expires_at db =
    let (en_route, arrived, started, completed, expired) = lifecycle-Logs id now worker from db in
    let (hired, accepted) = hire-Logs id bid worker price fee now direct_price direct_fee db in
    let (cancelled, left, reopened, relisted) =
      end-Logs id from reason why released worker role now expires_at db in
    (
      en_route, arrived, started, completed, expired, hired, accepted, cancelled, left, reopened,
      relisted,
    )
