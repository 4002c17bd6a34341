-- ===== src/Bids/Acceptance.antt =====
-- `acceptBid` of backend/src/modules/bids/bids.service.ts: the client hires the worker of a bid. The
-- response, which is the booking's number, is left out.
pub mod Safety
use easyrepair.Prelude.{
  ℕ, Bool, true, false, not, ◌&&◌, Option, none, some, ◌==◌, if◌then◌else◌, holds_id,
}
use easyrepair.Schema.{is_pending, is_bid_pending, is_bid_accepted, Booking, Bid}
use easyrepair.Store.{
  client_profile_not_found, bid_not_found, bid_not_yours, bid_not_available, wrong_status,
  worker_just_hired, forbidden, not_found, bad_request, conflict, record_not_found, notify,
  ensure_conversation,
}
use easyrepair.Store.Actions.{
  Action, ◌>>=◌, ◌>>◌, reject_if, emit_to, user_of_worker, worker_user, client_user, pure, reads,
  require, transact, rereads,
}
use easyrepair.Bookings.Lookups.{find_client_by_user, if_unavailable}
use easyrepair.Commission.{calculate_platform_fee}
use easyrepair.Bids.Transactions.{accept_bid}

-- The checks between the idempotent return and the transaction.
unfoldable pub check_acceptable : Bid → Booking → Action (Unit {0})
check_acceptable bid booking = do
  reject_if (not (is_pending booking.status)) (bad_request wrong_status)
  reject_if (not (is_bid_pending bid.status)) (bad_request bid_not_available)

-- `ensureConversationForBooking`, where both users are there.
abbrev pub open_thread : (client worker : Option ℕ) → Action (Unit {0})
open_thread none worker = pure tt
open_thread (some c) worker = emit_to worker (ensure_conversation c)

-- What follows the transaction.
unfoldable pub settle_accept : Bid → (client worker : Option ℕ) → Booking × Bool → Action (Unit {0})
settle_accept bid client worker (booking, false) =
    reject_if (not (holds_id booking.worker_profile_id bid.worker_profile_id))
      (conflict worker_just_hired)
settle_accept bid client worker (booking, true) = do
  bidder ← reads (λ db. user_of_worker (db.workers bid.worker_profile_id))
  emit_to bidder (λ u. notify u "bid.accepted" bid.booking_id)
  open_thread client worker

unfoldable pub commit_accept : (now bid_id : ℕ) → Bid → Action (Unit {0})
unfolding settle_accept
commit_accept now bid_id bid = do
  r ← if_unavailable (conflict worker_just_hired) (
      transact (
        accept_bid bid_id bid.booking_id bid.worker_profile_id bid.amount
          (calculate_platform_fee bid.amount) now))
  worker ← rereads (worker_user r.0)
  client ← rereads (client_user r.0)
  settle_accept bid client worker r

-- What follows the ownership check; an accept that succeeded before succeeds again.
unfoldable pub accept_owned : (now bid_id : ℕ) → Bid → Booking → Action (Unit {0})
unfolding commit_accept
accept_owned now bid_id bid booking =
    if is_bid_accepted bid.status && holds_id booking.worker_profile_id bid.worker_profile_id
    then pure tt
    else check_acceptable bid booking >> commit_accept now bid_id bid

-- The bid and its booking, which are the client's.
unfoldable pub authorize_bid : (user bid_id : ℕ) → Action (Bid × Booking)
authorize_bid user bid_id = do
  profile ← require (← reads (find_client_by_user user)) (forbidden client_profile_not_found)
  bid ← require (← reads (λ db. db.bids bid_id)) (not_found bid_not_found)
  booking ← require (← reads (λ db. db.bookings bid.booking_id)) record_not_found
  reject_if (not (booking.client_profile_id == profile.0)) (forbidden bid_not_yours)
  pure (bid, booking)

unfoldable pub accept_bid_request : (now user bid_id : ℕ) → Action (Unit {0})
unfolding accept_owned
accept_bid_request now user bid_id = do
  r ← authorize_bid user bid_id
  accept_owned now bid_id r.0 r.1
