-- ===== src/Tests/Hires.antt =====
-- Hires, races and runs of requests on the sample databases.
use easyrepair.Prelude.{
  ℕ, ◌<◌, ◌≡◌, refl, true, none, some, List, [], ◌∷◌, arith, put, find_first, is_row,
}
use easyrepair.Schema.{Booking, Bid, BidStatus, BookingStatus, BookingLane}
use easyrepair.Store.{Db, ok, err, Result}
use easyrepair.Bookings.Transactions.{
  assign_worker_to_booking, reopen_after_worker_cancellation, upsert_exclusion,
}
use easyrepair.Bookings.Lookups.{
  find_client_by_user, report_of, is_excluded, authorize_client, hire_price, hire_fee,
}
use easyrepair.Bookings.Hiring.{check_hire, announce_hire, commit_hire, hire_for, assign_worker}
use easyrepair.Bookings.Hiring.Safety.{NewHire, HireOutcome, assign_worker_outcome}
use easyrepair.Bookings.Cancellation.{ExpireBookingOutcome, expire_booking, cancel_booking}
use easyrepair.Bookings.Consistency.{IsConsistent}
use easyrepair.Bookings.Races.{
  cancel_after_hire, reopened_never_expires, is_cancelled_booking, is_working,
}
use easyrepair.Desk.{Request, hire, accept, serve_all, serve_all-IsConsistent}
use easyrepair.Tests.Sample.{open_db, open_db-IsConsistent, booking, bid}

abbrev window : ℕ
window = 60000

-- The client hires worker 1 for the STANDARD job.
abbrev hired : Result Booking × Db
hired = assign_worker window 2000 100 1 1 open_db open_db

first_hire : NewHire 1 1 open_db hired.1
unfolding assign_worker authorize_client find_client_by_user find_first hire_for check_hire
    report_of is_excluded commit_hire assign_worker_to_booking hire_price hire_fee announce_hire
first_hire = record { was_hireable = refl; was_assignable = refl; hired = refl; busy = refl }

-- The hire, and the same worker asked for another job.
abbrev day : List (ℕ × Request)
day = (2000, hire 100 1 1) ∷ (3000, accept 100 1) ∷ []

serve_all-IsConsistent_example : IsConsistent (serve_all window day open_db)
serve_all-IsConsistent_example = serve_all-IsConsistent window day open_db open_db-IsConsistent

assign_worker_outcome_example : HireOutcome 1 1 open_db hired
assign_worker_outcome_example = assign_worker_outcome window 2000 100 1 1 open_db open_db

may_cancel :
    (authorize_client 100 1 open_db hired.1).0
    ≡ ok (booking BookingLane.standard BookingStatus.pending none)
unfolding authorize_client find_client_by_user find_first
may_cancel = refl

cancel_after_hire_example :
    (is_row is_cancelled_booking
        ((cancel_booking 2002 100 1 "Too late" open_db hired.1).1.bookings 1)
      ≡ true)
    × (is_row is_working ((cancel_booking 2002 100 1 "Too late" open_db hired.1).1.workers 1)
        ≡ true)
    × ((cancel_booking 2002 100 1 "Too late" open_db hired.1).1.workers ≡ hired.1.workers)
cancel_after_hire_example =
    cancel_after_hire 2002 100 1 1 "Too late" open_db hired.1
      (booking BookingLane.standard BookingStatus.pending none) may_cancel refl first_hire

abbrev chosen : Bid
chosen = record (bid 1 200000) { status = BidStatus.accepted }

abbrev cancelled_job : Booking
cancelled_job = booking BookingLane.bidding BookingStatus.cancelled (some 1)

-- The BIDDING job after its worker cancelled.
abbrev left_db : Db
left_db = record open_db {
  bids = put 1 chosen open_db.bids;
  bookings = put 2 cancelled_job open_db.bookings;
}

abbrev reopened_db : Db
unfolding reopen_after_worker_cancellation upsert_exclusion
reopened_db = elim (reopen_after_worker_cancellation 2 1 "Sick" 3000 9000 left_db) [
  | ok r ↦ r.1
  | err e ↦ left_db
]

reopened : reopen_after_worker_cancellation 2 1 "Sick" 3000 9000 left_db ≡ ok (tt, reopened_db)
unfolding reopen_after_worker_cancellation upsert_exclusion
reopened = refl

abbrev reopened_job : Booking
reopened_job = record cancelled_job {
  worker_profile_id = none;
  status = BookingStatus.pending;
  live_started_at = some 3000;
  expires_at = some 9000;
}

reopened_row : reopened_db.bookings 2 ≡ some reopened_job
unfolding reopen_after_worker_cancellation upsert_exclusion
reopened_row = refl

bid_numbered : 1 < reopened_db.next_bid
unfolding reopen_after_worker_cancellation upsert_exclusion
bid_numbered = omega arith

reopened_never_expires_example :
    expire_booking 2 reopened_db reopened_db ≡ (ok ExpireBookingOutcome.skipped, reopened_db)
reopened_never_expires_example =
    reopened_never_expires 2 1 "Sick" 3000 9000 1 left_db reopened_db chosen reopened_job reopened
      refl refl refl bid_numbered reopened_row refl
