-- ===== src/Desk.antt =====
-- Requests that staff a booking or release its worker, served one after another: `assignWorker`,
-- `markOnMyWay`, `markArrived`, `startJob`, `completeJob`, `cancelBooking`, `workerCancelBooking`,
-- `reopenAfterWorkerCancellation` and `relistBooking` of
-- backend/src/modules/bookings/bookings.service.ts, `acceptBid` of
-- backend/src/modules/bids/bids.service.ts and `expireBooking` of
-- backend/src/modules/bookings/booking-expiry.service.ts. What follows an inspection (the rehire,
-- the completion after a closed report, the requests on reports) is not among them.
pub mod Late
use easyrepair.Prelude.{ℕ, ◌≡◌, ◌&&◌, some, List, [], ◌∷◌, arith, holds_id}
use Prim.Native.String.{String}
use easyrepair.Schema.{Booking, Bid, is_bid_accepted}
use easyrepair.Store.{Db}
use easyrepair.Store.Actions.{pure, ◌>>◌}
use easyrepair.Store.Rules.{after_reading, if_rule}
use easyrepair.Commission.{calculate_platform_fee}
use easyrepair.Bookings.Hiring.{assign_worker}
use easyrepair.Bookings.Progress.{mark_on_my_way, mark_arrived, start_job, complete_job}
use easyrepair.Bookings.Cancellation.{
  cancel_booking, worker_cancel_booking, reopen_after_worker_cancellation, relist_booking,
  expire_booking,
}
use easyrepair.Bids.Acceptance.{
  check_acceptable, settle_accept, commit_accept, accept_owned, authorize_bid, accept_bid_request,
}
use easyrepair.Bids.Acceptance.Safety.{authorize_bid-IsReading, check_acceptable-IsReading}
use easyrepair.Bookings.Consistency.{IsConsistent, working_on}
use easyrepair.Bookings.Staffing.Hires.{accept-IsConsistent}
use easyrepair.Bookings.Staffing.Requests.{
  assign_worker-IsConsistent, progress-IsConsistent, complete_job-IsConsistent,
  expire_booking-IsConsistent,
}
use easyrepair.Bookings.Staffing.Cancellations.{
  cancel_booking-IsConsistent, worker_cancel_booking-IsConsistent,
  reopen_after_worker_cancellation-IsConsistent, relist_booking-IsConsistent,
}

-- A request with its user and the number of its booking or bid.
pub data Request : Type 0 where
  hire : (user id worker : ℕ) → Request
  accept : (user bid : ℕ) → Request
  on_my_way arrived start complete reopen relist : (user id : ℕ) → Request
  client_cancel worker_cancel : (user id : ℕ) → (reason : String) → Request
  -- the expiry job of the queue
  expire : (id : ℕ) → Request

-- The database after a request that no other one interrupts.
unfoldable pub serve : (stale_ms now : ℕ) → Request → Db → Db
serve stale_ms now (hire user id worker) db = (assign_worker stale_ms now user id worker db db).1
serve stale_ms now (accept user bid) db = (accept_bid_request now user bid db db).1
serve stale_ms now (on_my_way user id) db = (mark_on_my_way now user id db db).1
serve stale_ms now (arrived user id) db = (mark_arrived now user id db db).1
serve stale_ms now (start user id) db = (start_job now user id db db).1
serve stale_ms now (complete user id) db = (complete_job now user id db db).1
serve stale_ms now (reopen user id) db = (reopen_after_worker_cancellation now user id db db).1
serve stale_ms now (relist user id) db = (relist_booking now user id db db).1
serve stale_ms now (client_cancel user id reason) db = (cancel_booking now user id reason db db).1
serve stale_ms now (worker_cancel user id reason) db =
    (worker_cancel_booking now user id reason db db).1
serve stale_ms now (expire id) db = (expire_booking id db db).1

-- The requests of a day, each with its time.
unfoldable pub serve_all : (stale_ms : ℕ) → List (ℕ × Request) → Db → Db
serve_all stale_ms [] db = db
serve_all stale_ms ((now, r) ∷ rs) db = serve_all stale_ms rs (serve stale_ms now r db)

commit_accept-IsConsistent :
    (now id : ℕ) (bid : Bid) (seen db : Db)
    → IsConsistent db
    → IsConsistent (commit_accept now id bid seen db).1
unfolding commit_accept settle_accept
commit_accept-IsConsistent now id bid seen db c = ground (
  arith,
  accept-IsConsistent id bid.booking_id bid.worker_profile_id bid.amount
      (calculate_platform_fee bid.amount) now db c,
)

accept_owned-IsConsistent :
    (now id : ℕ) (bid : Bid) (b : Booking) (seen db : Db)
    → IsConsistent db
    → IsConsistent (accept_owned now id bid b seen db).1
unfolding accept_owned
accept_owned-IsConsistent now id bid b seen db c =
    if_rule IsConsistent seen db
      (is_bid_accepted bid.status && holds_id b.worker_profile_id bid.worker_profile_id) (pure tt)
      (check_acceptable bid b >> commit_accept now id bid) (λ _. c)
      (λ _.
        after_reading IsConsistent (check_acceptable bid b) (λ _. commit_accept now id bid) seen db
          (check_acceptable-IsReading bid b) c
          (λ u checked. commit_accept-IsConsistent now id bid seen db c))

pub accept_request-IsConsistent :
    (now user id : ℕ) (seen db : Db)
    → IsConsistent db
    → IsConsistent (accept_bid_request now user id seen db).1
unfolding accept_bid_request
accept_request-IsConsistent now user id seen db c =
    after_reading IsConsistent (authorize_bid user id) (λ r. accept_owned now id r.0 r.1) seen db
      (authorize_bid-IsReading user id) c
      (λ r found. accept_owned-IsConsistent now id r.0 r.1 seen db c)

pub serve-IsConsistent :
    (stale_ms now : ℕ) (r : Request) (db : Db)
    → IsConsistent db
    → IsConsistent (serve stale_ms now r db)
unfolding serve
serve-IsConsistent stale_ms now (hire user id worker) db c =
    assign_worker-IsConsistent stale_ms now user id worker db c
serve-IsConsistent stale_ms now (accept user bid) db c =
    accept_request-IsConsistent now user bid db db c
serve-IsConsistent stale_ms now (on_my_way user id) db c =
    (progress-IsConsistent now user id db c).0
serve-IsConsistent stale_ms now (arrived user id) db c = (progress-IsConsistent now user id db c).1
serve-IsConsistent stale_ms now (start user id) db c = (progress-IsConsistent now user id db c).2
serve-IsConsistent stale_ms now (complete user id) db c = complete_job-IsConsistent now user id db c
serve-IsConsistent stale_ms now (reopen user id) db c =
    reopen_after_worker_cancellation-IsConsistent now user id db c
serve-IsConsistent stale_ms now (relist user id) db c = relist_booking-IsConsistent now user id db c
serve-IsConsistent stale_ms now (client_cancel user id reason) db c =
    cancel_booking-IsConsistent now user id reason db c
serve-IsConsistent stale_ms now (worker_cancel user id reason) db c =
    worker_cancel_booking-IsConsistent now user id reason db c
serve-IsConsistent stale_ms now (expire id) db c = expire_booking-IsConsistent id db db c

-- From a database whose staffing is right (every active booking has a worker, who is marked busy,
-- open bookings have none, and no worker has two active bookings), it is right after any list of
-- requests that are served one after another.
pub serve_all-IsConsistent :
    (stale_ms : ℕ) (rs : List (ℕ × Request)) (db : Db)
    → IsConsistent db
    → IsConsistent (serve_all stale_ms rs db)
unfolding serve_all
serve_all-IsConsistent stale_ms [] db c = c
serve_all-IsConsistent stale_ms ((now, r) ∷ rs) db c =
    serve_all-IsConsistent stale_ms rs (serve stale_ms now r db)
      (serve-IsConsistent stale_ms now r db c)
