-- ===== src/Bids/Offers.antt =====
-- A worker's bid in backend/src/modules/bids/bids.service.ts: `createBid`, `editBid` and what they
-- share. `config` and `great_circle` are those of the matcher.
pub mod Edits
use Prim.Native.String.{String}
use easyrepair.Prelude.{
  ℕ, ℤ, ◌+◌, ◌-◌, ◌*◌, ◌/◌, Bool, true, false, not, ◌&&◌, ◌||◌, Option, none, some, List, [], ◌∷◌,
  ltb, leb, ◌==◌, if◌then◌else◌, is_some,
}
use easyrepair.Schema.{
  is_pending, is_inspection, is_bidding, is_bid_pending, is_active_account, is_approved,
  WorkerProfile, Booking, Bid, InspectionReport, BookingWorkerExclusion,
}
use easyrepair.Store.{
  worker_profile_not_found, booking_not_found, bid_not_found, bid_not_owned, bid_not_available,
  wrong_status, account_not_active, profile_incomplete, bidding_closed, edited_already,
  not_eligible_for_job, forbidden, not_found, bad_request, too_many_requests, record_not_found, Db,
  notify,
}
use easyrepair.Store.Actions.{
  Action, ◌>>=◌, ◌>>◌, reject_if, emit_to, client_user, pure, reads, require, transact,
}
use easyrepair.Bookings.Lookups.{find_worker_by_user, report_of, decided_find_other}
use easyrepair.Eligibility.{MatchingConfig, JobEligibilityBooking, is_eligible_for_job}
use easyrepair.Bids.Transactions.{
  find_existing_bid, create_bid, update_bid, update_bid_amount_and_message,
}

-- BID_COOLDOWN_SECONDS, in milliseconds.
abbrev pub bid_cooldown_ms : ℕ
bid_cooldown_ms = 60 * 1000

-- `Math.ceil` of milliseconds to seconds.
abbrev pub ceil_seconds : ℕ → ℕ
ceil_seconds ms = (ms + 999) / 1000

-- `_assertCooldownElapsed`: `secondsSinceUpdate` is negative where the row is from the future, so
-- both sides are kept apart.
unfoldable pub assert_cooldown_elapsed : (now last_updated_at : ℕ) → Action (Unit {0})
assert_cooldown_elapsed now last_updated_at =
    reject_if (ltb now (last_updated_at + bid_cooldown_ms))
      (too_many_requests (ceil_seconds (last_updated_at + bid_cooldown_ms - now)))

-- `_assertWorkerApproved`
unfoldable pub assert_worker_approved : WorkerProfile → Action (Unit {0})
assert_worker_approved worker = do
  reject_if (not (is_active_account worker.status)) (forbidden account_not_active)
  reject_if (not (is_approved worker.onboarding_status) || not worker.profile_completed)
      (forbidden profile_incomplete)

pub record PostInspection : Type 0 where
  pub is_open : Bool
  pub inspector_worker_profile_id : Option ℕ

inspector_of : Option (ℕ × InspectionReport) → Option ℕ
inspector_of none = none
inspector_of (some (_, r)) = some r.worker_profile_id

source_inspector : Option ℕ → Db → Option ℕ
unfolding inspector_of
source_inspector none db = none
source_inspector (some source) db = inspector_of (report_of source db)

-- `_postInspectionBiddingContext`
unfoldable pub post_inspection_bidding_context : (id : ℕ) → Booking → Db → PostInspection
unfolding inspector_of source_inspector
post_inspection_bidding_context id booking db =
    if is_inspection booking.lane && decided_find_other (report_of id db)
    then record { is_open = true; inspector_worker_profile_id = inspector_of (report_of id db) }
    else if is_bidding booking.lane && is_some booking.source_inspection_booking_id
    then record {
      is_open = true;
      inspector_worker_profile_id = source_inspector booking.source_inspection_booking_id db;
    }
    else record { is_open = false; inspector_worker_profile_id = none }

-- The `workerExclusions` of a booking.
unfoldable pub excluded_workers : ℕ → List BookingWorkerExclusion → List ℕ
excluded_workers booking [] = []
excluded_workers booking (e ∷ es) =
    if e.booking_id == booking
    then e.worker_profile_id ∷ excluded_workers booking es
    else excluded_workers booking es

-- What the matcher reads of a booking row.
abbrev pub matched_booking : (id : ℕ) → Booking → Db → JobEligibilityBooking
unfolding excluded_workers
matched_booking id booking db = record {
  category_id = booking.category_id;
  latitude = booking.place.latitude;
  longitude = booking.place.longitude;
  status = some booking.status;
  worker_profile_id = booking.worker_profile_id;
  worker_exclusions = excluded_workers id db.exclusions;
  created_at = some booking.created_at;
}

-- How `editBid` begins: the worker's profile, and a bid of theirs.
unfoldable pub authorize_bidder : (user bid_id : ℕ) → Action ((ℕ × WorkerProfile) × Bid)
unfolding assert_worker_approved
authorize_bidder user bid_id = do
  (worker_id, worker) ←
      require (← reads (find_worker_by_user user)) (forbidden worker_profile_not_found)
  bid ← require (← reads (λ db. db.bids bid_id)) (not_found bid_not_found)
  reject_if (not (bid.worker_profile_id == worker_id)) (forbidden bid_not_owned)
  assert_worker_approved worker
  pure ((worker_id, worker), bid)

unfoldable pub commit_edit : (now bid_id amount : ℕ) → Option String → Bid → Action Bid
unfolding assert_cooldown_elapsed
commit_edit now bid_id amount message bid =
    assert_cooldown_elapsed now bid.updated_at >> transact (update_bid bid_id amount message now)

module _ (config : MatchingConfig) (great_circle : ℤ → ℤ → ℤ → ℤ → ℕ) (radius_km : ℕ) where
  -- `assertEligibleForJob` as the bids call it: without the live presence.
  unfoldable pub assert_may_bid :
      (now id worker_id : ℕ) → WorkerProfile → Booking → Option ℕ → Action (Unit {0})
  assert_may_bid now id worker_id worker booking inspector = do
    row ← reads (matched_booking id booking)
    reject_if
        (not (
          is_eligible_for_job config great_circle now worker_id worker row (record {
            radius_km = some radius_km;
            inspecting_worker_profile_id = inspector;
            require_live_presence = some false;
          })))
        (forbidden not_eligible_for_job)

  -- The checks of `createBid` up to the look for an existing bid.
  unfoldable pub check_bid : (now id worker_id : ℕ) → WorkerProfile → Booking → Action (Unit {0})
  unfolding assert_may_bid
  check_bid now id worker_id worker booking = do
    reject_if (not (is_pending booking.status)) (bad_request wrong_status)
    post ← reads (post_inspection_bidding_context id booking)
    reject_if (not (is_bidding booking.lane) && not post.is_open) (bad_request bidding_closed)
    assert_may_bid now id worker_id worker booking post.inspector_worker_profile_id

  submit_bid :
      (now id worker_id amount : ℕ) → Option String → Booking → Option (ℕ × Bid) → Action Bid
  submit_bid now id worker_id amount message booking none = do
    bid ← transact (create_bid id worker_id amount message now)
    user ← reads (client_user booking)
    emit_to user (λ u. notify u "bid.received" id)
    pure bid
  submit_bid now id worker_id amount message booking (some (bid_id, existing)) = do
    assert_cooldown_elapsed now existing.updated_at
    transact (update_bid_amount_and_message bid_id amount message now)

  -- `createBid`
  unfoldable pub create_bid_request : (now user id amount : ℕ) → Option String → Action Bid
  unfolding submit_bid
  create_bid_request now user id amount message = do
    (worker_id, worker) ←
        require (← reads (find_worker_by_user user)) (forbidden worker_profile_not_found)
    assert_worker_approved worker
    booking ← require (← reads (λ db. db.bookings id)) (not_found booking_not_found)
    check_bid now id worker_id worker booking
    existing ← reads (find_existing_bid id worker_id)
    submit_bid now id worker_id amount message booking existing

  -- The checks of `editBid` between its authorization and the cooldown. The bid's booking is there,
  -- as its foreign key says.
  unfoldable pub check_edit : (now worker_id : ℕ) → WorkerProfile → Bid → Action (Unit {0})
  unfolding assert_may_bid
  check_edit now worker_id worker bid = do
    reject_if (not (is_bid_pending bid.status)) (bad_request bid_not_available)
    reject_if (leb 1 bid.edit_count) (bad_request edited_already)
    booking ← require (← reads (λ db. db.bookings bid.booking_id)) record_not_found
    reject_if (not (is_pending booking.status)) (bad_request wrong_status)
    post ← reads (post_inspection_bidding_context bid.booking_id booking)
    assert_may_bid now bid.booking_id worker_id worker booking post.inspector_worker_profile_id

  -- `editBid`
  unfoldable pub edit_bid : (now user bid_id amount : ℕ) → Option String → Action Bid
  unfolding check_edit
  edit_bid now user bid_id amount message = do
    r ← authorize_bidder user bid_id
    check_edit now r.0.0 r.0.1 r.1
    commit_edit now bid_id amount message r.1
