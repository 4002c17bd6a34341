-- ===== src/Bookings/Races.antt =====
-- What happens to a booking when two requests meet: the second had read it before the first wrote.
use easyrepair.Prelude.{
  ℕ, ◌<◌, ◌≡◌, Bool, true, false, ◌&&◌, none, some, arith, ◌==◌, find_first-none, is_row,
}
use Prim.Native.String.{String}
use easyrepair.Schema.{
  Bid, is_bidding, is_bid_accepted, Booking, WorkerProfile, is_pending, is_accepted, is_cancelled,
}
use easyrepair.Store.{Db, ok}
use easyrepair.Bookings.Transactions
use easyrepair.Bookings.Transactions.{is_hireable, expire_if_pending}
use easyrepair.Bookings.Lookups.{authorize_client, authorize_client-IsReading}
use easyrepair.Store.Rules.{bind_read}
use easyrepair.Bookings.Hiring.Safety.{NewHire}
use easyrepair.Bookings.Cancellation.{
  ExpireBookingOutcome, find_accepted_bid, cancel_booking, cancel_authorized, commit_cancel,
  settle_cancel, expire_read, expire_found, expire_booking,
}

abbrev pub is_cancelled_booking : Booking → Bool
is_cancelled_booking b = is_cancelled b.status

abbrev pub is_working : WorkerProfile → Bool
is_working w = w.currently_working

abbrev is_pending_booking : Booking → Bool
is_pending_booking b = is_pending b.status

abbrev is_accepted_booking : Booking → Bool
is_accepted_booking b = is_accepted b.status

expire_unless_pending :
    (id : ℕ) (seen db : Db)
    → is_row is_pending_booking (db.bookings id) ≡ false
    → (expire_booking id seen db).1 ≡ db
unfolding expire_booking expire_found expire_read expire_if_pending
expire_unless_pending id seen db h = ground arith

-- Once a worker has been hired for a booking, its expiry job writes nothing, whatever it had read.
pub expire_after_hire :
    (id worker : ℕ) (seen before db : Db)
    → NewHire id worker before db
    → (expire_booking id seen db).1 ≡ db
expire_after_hire id worker seen before db hire =
    expire_unless_pending id seen db (ground (arith, hire.hired))

cancel_stale :
    (now id : ℕ) (reason : String) (seen db : Db) (b : Booking)
    → is_hireable b ≡ true
    → is_row is_accepted_booking (db.bookings id) ≡ true
    → (is_row is_cancelled_booking ((cancel_authorized now id reason b seen db).1.bookings id)
        ≡ true)
      × ((cancel_authorized now id reason b seen db).1.workers ≡ db.workers)
unfolding cancel_authorized commit_cancel settle_cancel Transactions.cancel_booking
cancel_stale now id reason seen db b open' hired = ground arith

-- A client's cancellation that had read its booking PENDING and unassigned, and whose transaction runs
-- right after a hire for it, cancels the booking and changes no worker: the hired one stays busy.
pub cancel_after_hire :
    (now user id worker : ℕ) (reason : String) (before db : Db) (b : Booking)
    → (authorize_client user id before db).0 ≡ ok b
    → before.bookings id ≡ some b
    → NewHire id worker before db
    → (is_row is_cancelled_booking ((cancel_booking now user id reason before db).1.bookings id)
        ≡ true)
      × (is_row is_working ((cancel_booking now user id reason before db).1.workers worker) ≡ true)
      × ((cancel_booking now user id reason before db).1.workers ≡ db.workers)
unfolding cancel_booking
cancel_after_hire now user id worker reason before db b may read hire =
    rw
      (bind_read (authorize_client user id) (cancel_authorized now id reason) before db b
        (authorize_client-IsReading user id) may)
      (both.0, rw both.1 hire.busy, both.1)
  where
    hireable : is_hireable b ≡ true
    hireable = ground (arith, hire.was_hireable)

    both :
        (is_row is_cancelled_booking ((cancel_authorized now id reason b before db).1.bookings id)
          ≡ true)
        × ((cancel_authorized now id reason b before db).1.workers ≡ db.workers)
    both = cancel_stale now id reason before db b hireable (ground (arith, hire.hired))

-- A reopening that leaves the accepted bid of the worker who cancelled.
still_accepted :
    (id worker : ℕ) (reason : String) (now expires_at i : ℕ) (db db' : Db) (bid : Bid)
    → Transactions.reopen_after_worker_cancellation id worker reason now expires_at db
      ≡ ok (tt, db')
    → db.bids i ≡ some bid
    → is_bid_accepted bid.status ≡ true
    → db'.bids i ≡ some bid
unfolding Transactions.reopen_after_worker_cancellation
still_accepted id worker reason now expires_at i db db' bid done there accepted = ground arith

-- When `reopenAfterWorkerCancellation` has reopened a BIDDING booking on which a bid, numbered
-- below `next_bid`, stood ACCEPTED, the expiry job skips the booking and writes nothing, where
-- nothing else is written before it.
pub reopened_never_expires :
    (id worker : ℕ) (reason : String) (now expires_at i : ℕ) (db db' : Db) (bid : Bid) (b : Booking)
    → Transactions.reopen_after_worker_cancellation id worker reason now expires_at db
      ≡ ok (tt, db')
    → db.bids i ≡ some bid
    → bid.booking_id ≡ id
    → is_bid_accepted bid.status ≡ true
    → i < db'.next_bid
    → db'.bookings id ≡ some b
    → is_bidding b.lane ≡ true
    → expire_booking id db' db' ≡ (ok ExpireBookingOutcome.skipped, db')
unfolding expire_booking expire_found expire_read find_accepted_bid
reopened_never_expires id worker reason now expires_at i db db' bid b done there of_booking accepted
      below found lane =
    ground (
      arith,
      still_accepted id worker reason now expires_at i db db' bid done there accepted,
      λ (missing : find_accepted_bid id db' ≡ none) (kept : db'.bids i ≡ some bid).
          find_first-none (λ _ (b : Bid). b.booking_id == id && is_bid_accepted b.status)
            db'.next_bid db'.bids i missing below kept,
    )
