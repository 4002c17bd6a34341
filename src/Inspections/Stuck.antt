-- ===== src/Inspections/Stuck.antt =====
-- The two transactions of `closeAfterInspection`: what is left when only the first one happened.
use easyrepair.Prelude.{ℕ, ◌≡◌, ◌≢◌, refl, true, some, arith}
use easyrepair.Schema.{Booking, InspectionReport, is_inspection, is_completed, is_closed}
use easyrepair.Store.{Db, ok}
use easyrepair.Store.Actions.{pure, ◌>>◌}
use easyrepair.Store.Rules.{after_reading, if_rule}
use easyrepair.Bookings.Lookups.{
  report_of, authorize_assigned_worker, authorize_assigned_worker-IsReading,
}
use easyrepair.Bookings.Progress.{
  check_inspection_done, complete_checked, complete_authorized, complete_job,
}
use easyrepair.Bookings.Staffing.Requests.{check_inspection_done-IsReading}
use easyrepair.Bookings.Staffing.Steps.{authorize_assigned_worker-found}
use easyrepair.Inspections.Decisions.{
  authorize_report, decide, close_authorized, close_after_inspection,
}
use easyrepair.Inspections.Decisions.Pricing.{authorize_report-IsReading, authorize_report-found}

check_closed :
    (id : ℕ) (b : Booking) (report : ℕ) (r : InspectionReport) (seen db : Db) (u : Unit {0})
    → is_inspection b.lane ≡ true
    → report_of id seen ≡ some (report, r)
    → is_closed r.decision_status ≡ true
    → (check_inspection_done id b seen db).0 ≢ ok u
unfolding check_inspection_done
check_closed id b report r seen db u lane read closed h = ground arith

close_again :
    (now id report : ℕ) (b : Booking) (r : InspectionReport) (seen db : Db)
    → is_closed r.decision_status ≡ true
    → (close_authorized now id (b, (report, r)) seen db).1 ≡ db
unfolding close_authorized decide
close_again now id report b r seen db closed = ground arith

complete_blocked :
    (now id worker report : ℕ) (b : Booking) (r : InspectionReport) (seen db : Db)
    → is_inspection b.lane ≡ true
    → report_of id seen ≡ some (report, r)
    → is_closed r.decision_status ≡ true
    → (complete_authorized now id (worker, b) seen db).1 ≡ db
unfolding complete_authorized
complete_blocked now id worker report b r seen db lane read closed =
    if_rule (λ d. d ≡ db) seen db (is_completed b.status) (pure b)
      (check_inspection_done id b >> complete_checked now id worker b) (λ _. refl)
      (λ _.
        after_reading (λ d. d ≡ db) (check_inspection_done id b)
          (λ _. complete_checked now id worker b) seen db (check_inspection_done-IsReading id b)
          refl (λ u passed. absurd (check_closed id b report r seen db u lane read closed passed)))

-- While the report of an INSPECTION booking is CLOSED_AFTER_INSPECTION, neither the client's
-- `closeAfterInspection` nor `completeJob`, of any users and at any times, writes anything: a booking
-- that is not COMPLETED by then is completed by neither.
pub closed_report_blocks :
    (now now' client user id report : ℕ) (b : Booking) (r : InspectionReport) (seen db : Db)
    → seen.bookings id ≡ some b
    → is_inspection b.lane ≡ true
    → report_of id seen ≡ some (report, r)
    → is_closed r.decision_status ≡ true
    → ((close_after_inspection now client id seen db).1 ≡ db)
      × ((complete_job now' user id seen db).1 ≡ db)
unfolding close_after_inspection complete_job
closed_report_blocks now now' client user id report b r seen db row lane read closed = (
  after_reading (λ d. d ≡ db) (authorize_report client id) (close_authorized now id) seen db
      (authorize_report-IsReading client id) refl
      (λ a found.
        close_again now id a.1.0 a.0 a.1.1 seen db
          (same_report a.1 (authorize_report-found client id seen db a found))),
  after_reading (λ d. d ≡ db) (authorize_assigned_worker user id) (complete_authorized now' id) seen
      db (authorize_assigned_worker-IsReading user id) refl
      (λ a found.
        complete_blocked now' id a.0 report a.1 r seen db
          (same_lane a.1 (authorize_assigned_worker-found user id seen db a found).0) read closed),
)
  where
    same_report :
        (q : ℕ × InspectionReport)
        → report_of id seen ≡ some q
        → is_closed q.1.decision_status ≡ true
    same_report q e = ground arith

    same_lane : (c : Booking) → seen.bookings id ≡ some c → is_inspection c.lane ≡ true
    same_lane c e = ground arith
