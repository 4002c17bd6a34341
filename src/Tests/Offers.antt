-- ===== src/Tests/Offers.antt =====
-- Bids on the sample BIDDING job.
use easyrepair.Desk.Late.{late_requests}
use easyrepair.Bookings.Cancellation.{expire_booking}
use easyrepair.Bookings.Hiring.{assign_worker}
use easyrepair.Prelude.{ℕ, ℤ, ◌≡◌, refl, none, put, find_first}
use easyrepair.Schema.{Bid}
use easyrepair.Eligibility.{
  MatchingConfig, includes, haversine_km, check_job_eligibility, is_eligible_for_job,
}
use easyrepair.Store.{Db, ok, Result}
use easyrepair.Commission.{calculate_platform_fee}
use easyrepair.Bookings.Lookups.{find_client_by_user, find_worker_by_user, report_of}
use easyrepair.Bookings.Hiring.Safety.{NewHire}
use easyrepair.Bids.Transactions.{accept_bid, update_bid}
use easyrepair.Bids.Acceptance.{
  accept_bid_request, authorize_bid, accept_owned, check_acceptable, commit_accept, settle_accept,
}
use easyrepair.Bids.Acceptance.Safety.{ReadOutcome, accept_bid_outcome}
use easyrepair.Bids.Offers.{
  edit_bid, authorize_bidder, assert_worker_approved, check_edit, commit_edit,
  assert_cooldown_elapsed, assert_may_bid, post_inspection_bidding_context, excluded_workers,
}
use easyrepair.Bids.Offers.Edits.{IsRefused, ReadEdit, edit_bid_outcome, edit_bid_once}
use easyrepair.Tests.Sample.{open_db, bid}

-- The client accepts bid 1.
abbrev accepted_run : Result (Unit {0}) × Db
accepted_run = accept_bid_request 2000 100 1 open_db open_db

accept_bid_outcome_example : ReadOutcome 1 open_db open_db accepted_run
accept_bid_outcome_example = accept_bid_outcome 2000 100 1 open_db open_db

bidder_hired : NewHire 2 1 open_db accepted_run.1
unfolding accept_bid_request authorize_bid find_client_by_user find_first accept_owned
    check_acceptable commit_accept accept_bid calculate_platform_fee settle_accept
bidder_hired = record { was_hireable = refl; was_assignable = refl; hired = refl; busy = refl }

-- Then come requests that had read the job open: for worker 2, for bid 2, and its expiry.
late_requests_example :
    ((assign_worker 60000 2001 100 2 2 open_db accepted_run.1).1 ≡ accepted_run.1)
    × ((accept_bid_request 2001 100 2 open_db accepted_run.1).1 ≡ accepted_run.1)
    × ((expire_booking 2 open_db accepted_run.1).1 ≡ accepted_run.1)
late_requests_example =
    late_requests 60000 2001 100 1 2 2 (bid 2 180000) open_db open_db accepted_run.1 refl
      bidder_hired

abbrev config : MatchingConfig
config = record { worker_presence_stale_ms = 60000; job_discovery_window_ms = 259200000 }

abbrev nearby : ℤ → ℤ → ℤ → ℤ → ℕ
nearby a b c d = 120

abbrev edited : Result Bid × Db
edited = edit_bid config nearby 700 70000 201 1 190000 none open_db open_db

abbrev edited_bid : Bid
edited_bid = record (bid 1 190000) { edit_count = 1; updated_at = 70000 }

edit_runs : edited ≡ (ok edited_bid, record open_db { bids = put 1 edited_bid open_db.bids })
unfolding edit_bid authorize_bidder find_worker_by_user find_first assert_worker_approved check_edit
    commit_edit assert_cooldown_elapsed assert_may_bid post_inspection_bidding_context
    excluded_workers is_eligible_for_job check_job_eligibility includes haversine_km update_bid
    report_of
edit_runs = refl

edit_bid_outcome_example : ReadEdit 70000 1 open_db open_db edited
edit_bid_outcome_example =
    edit_bid_outcome config nearby 700 70000 201 1 190000 none open_db open_db

edit_bid_once_example :
    IsRefused
      (edit_bid config nearby 700 900000 201 1 170000 none
        (record open_db { bids = put 1 edited_bid open_db.bids })
        (record open_db { bids = put 1 edited_bid open_db.bids }))
      (record open_db { bids = put 1 edited_bid open_db.bids })
edit_bid_once_example =
    edit_bid_once config nearby 700 70000 900000 201 201 1 190000 170000 none none open_db
      (record open_db { bids = put 1 edited_bid open_db.bids }) edited_bid edit_runs
