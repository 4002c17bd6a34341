-- ===== src/Tests/Decisions.antt =====
-- Decisions on the sample inspection.
use easyrepair.Prelude.{◌≡◌, refl, some, put, find_first}
use easyrepair.Store.{Db, ok, err, Keeps}
use easyrepair.Bookings.Repair.{
  CloseInspectionParams, created, already_done, close_and_open, decide_find_other, close_inspection,
  create_child, find_repair_booking, close_inspection_and_open_repair_bidding,
}
use easyrepair.Bookings.Repair.Retry.{switch_once}
use easyrepair.Bookings.Consistency.{IsConsistent}
use easyrepair.Bookings.Staffing.Hires.{close-IsConsistent}
use easyrepair.Inspections.Decisions.{accept_quote, close_after_inspection}
use easyrepair.Inspections.Decisions.Pricing.{ReadQuote, accept_quote_outcome}
use easyrepair.Schema.{InspectionReport, InspectionDecisionStatus, BookingLane, BookingStatus}
use easyrepair.Bookings.Lookups.{report_of}
use easyrepair.Bookings.Progress.{complete_job}
use easyrepair.Inspections.Stuck.{closed_report_blocks}
use easyrepair.Tests.Sample.{inspection_db, inspection_db-IsConsistent, place, report, booking}

accept_quote_outcome_example :
    ReadQuote 1 inspection_db inspection_db (accept_quote 2000 100 1 inspection_db inspection_db)
accept_quote_outcome_example = accept_quote_outcome 2000 100 1 inspection_db inspection_db

abbrev params : CloseInspectionParams
params = record {
  report_id = 1;
  original_booking_id = 1;
  inspecting_worker_profile_id = 1;
  client_profile_id = 1;
  category_id = 7;
  title = some "Leaking tap";
  description = "The washer is worn";
  place = place;
}

abbrev switched_db : Db
unfolding close_inspection_and_open_repair_bidding close_and_open decide_find_other close_inspection
    create_child find_repair_booking find_first
switched_db = elim (close_inspection_and_open_repair_bidding params 3000 9000 inspection_db) [
  | ok r ↦ r.1
  | err e ↦ inspection_db
]

switch_runs :
    close_inspection_and_open_repair_bidding params 3000 9000 inspection_db
    ≡ ok (created 2, switched_db)
unfolding close_inspection_and_open_repair_bidding close_and_open decide_find_other close_inspection
    create_child find_repair_booking find_first
switch_runs = refl

switch_once_example :
    close_inspection_and_open_repair_bidding params 4000 10000 switched_db
    ≡ ok (already_done 2, switched_db)
switch_once_example =
    switch_once params 3000 4000 9000 10000 2 inspection_db switched_db switch_runs

close-IsConsistent_example :
    Keeps IsConsistent inspection_db (close_and_open params 3000 9000 inspection_db)
close-IsConsistent_example =
    close-IsConsistent params 3000 9000 inspection_db inspection_db-IsConsistent

abbrev closed_report : InspectionReport
closed_report = record report {
  decision_status = InspectionDecisionStatus.closed_after_inspection;
  closed_at = some 2000;
}

-- The inspection after the first transaction of `closeAfterInspection` alone.
abbrev half_closed_db : Db
half_closed_db = record inspection_db { reports = put 1 closed_report inspection_db.reports }

closed_report_read : report_of 1 half_closed_db ≡ some (1, closed_report)
unfolding report_of find_first
closed_report_read = refl

closed_report_blocks_example :
    ((close_after_inspection 3000 100 1 half_closed_db half_closed_db).1 ≡ half_closed_db)
    × ((complete_job 3000 201 1 half_closed_db half_closed_db).1 ≡ half_closed_db)
closed_report_blocks_example =
    closed_report_blocks 3000 3000 100 201 1 1
      (booking BookingLane.inspection BookingStatus.in_progress (some 1)) closed_report
      half_closed_db half_closed_db refl refl closed_report_read refl
