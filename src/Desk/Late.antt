-- ===== src/Desk/Late.antt =====
-- Requests on a booking that another one has staffed since they read it.
use easyrepair.Prelude.{ℕ, ◌≡◌, some}
use easyrepair.Bookings.Hiring.{assign_worker}
use easyrepair.Bids.Acceptance.Safety.{racing_accepts}
use easyrepair.Bookings.Races.{expire_after_hire}
use easyrepair.Bids.Acceptance.{accept_bid_request}
use easyrepair.Bookings.Cancellation.{expire_booking}
use easyrepair.Schema.{Bid}
use easyrepair.Store.{Db}
use easyrepair.Bookings.Hiring.Safety.{NewHire, racing_hires}

-- Once a worker has been hired for a booking, three late requests on it write nothing, however
-- stale the rows that they had read: another `assignWorker`, of any client and for any worker,
-- `acceptBid` on a bid of the booking, and its expiry job.
pub late_requests :
    (stale_ms now user worker other offer : ℕ) (bid : Bid) (seen before db : Db)
    → seen.bids offer ≡ some bid
    → NewHire bid.booking_id worker before db
    → ((assign_worker stale_ms now user bid.booking_id other seen db).1 ≡ db)
      × ((accept_bid_request now user offer seen db).1 ≡ db)
      × ((expire_booking bid.booking_id seen db).1 ≡ db)
late_requests stale_ms now user worker other offer bid seen before db read hire = (
  racing_hires stale_ms now user bid.booking_id worker other seen before db hire,
  racing_accepts now user offer worker bid seen before db read hire,
  expire_after_hire bid.booking_id worker seen before db hire,
)
