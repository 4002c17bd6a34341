-- ===== src/Inspections/Decisions.antt =====
-- `acceptQuote` and `closeAfterInspection` of
-- backend/src/modules/inspection-reports/inspection-reports.service.ts. A response is the report's row.
pub mod Pricing
use easyrepair.Prelude.{
  ℕ, zero, suc, ℤ, ◌+◌, ◌-◌, ◌*◌, ◌/◌, ◌%◌, ◌≤◌, ◌<◌, min, max, ◌≡◌, ◌≢◌, ◌↔◌, ◌⊎◌, refl, sym,
  subst, ap, ◌∙◌, inl, inr, Bool, true, false, not, ◌&&◌, ◌||◌, Option, none, some, List, [], ◌∷◌,
  ◌++◌, map, arith, ltb, leb, ◌==◌, if◌then◌else◌, Bool-cases, Option-cases, is_some, or_else,
  or_other, holds_id, Table, put, revise, update_many, find_first, find_first-some, find_first-none,
  put_rule, is_row,
}
use easyrepair.Schema.{
  InspectionDecisionStatus, is_undecided, is_accepted_repair, is_closed, Booking, InspectionReport,
}
use easyrepair.Store.{
  Transaction, booking_not_found, not_your_booking, already_decided, report_not_found, forbidden,
  not_found, bad_request, Transaction, notify,
}
use easyrepair.Store.Actions.{
  Action, ◌>>=◌, ◌>>◌, reject_if, emit_to, worker_user, client_user, pure, raise, reads, require,
  transact,
}
use easyrepair.Bookings.Lookups.{report_of}
use easyrepair.Commission.{calculate_platform_fee}
use easyrepair.Inspections.Transactions.{mark_accepted_and_finalize_repair_price, mark_closed}
use easyrepair.Bookings.Progress.{complete_after_inspection_close}

-- How the client's requests begin: the booking, that it is theirs, and its report.
unfoldable pub authorize_report : (user id : ℕ) → Action (Booking × (ℕ × InspectionReport))
authorize_report user id = do
  booking ← require (← reads (λ db. db.bookings id)) (not_found booking_not_found)
  owner ← reads (client_user booking)
  reject_if (not (holds_id owner user)) (forbidden not_your_booking)
  report ← require (← reads (report_of id)) (not_found report_not_found)
  pure (booking, report)

-- What the loser of a race is told, by the decision that the report has by then.
unfoldable pub settle_lost_decision :
    (wanted : InspectionDecisionStatus → Bool) → InspectionReport → Action InspectionReport
settle_lost_decision wanted updated =
    if wanted updated.decision_status then pure updated else raise (bad_request already_decided)

-- The transaction of a decision, and what follows it if it was this request that decided.
unfoldable pub commit_decision :
    (wanted : InspectionDecisionStatus → Bool)
    → Transaction (InspectionReport × Bool)
    → (follow_up : Action (Unit {0})) → Action InspectionReport
unfolding settle_lost_decision
commit_decision wanted write follow_up = do
  r ← transact write
  if r.1 then follow_up >> pure r.0 else settle_lost_decision wanted r.0

-- The two tests before a decision: the retry of the same one returns the report as it is.
unfoldable pub decide :
    (wanted : InspectionDecisionStatus → Bool)
    → Transaction (InspectionReport × Bool)
    → (follow_up : Action (Unit {0})) → InspectionReport
    → Action InspectionReport
unfolding commit_decision
decide wanted write follow_up report =
    if wanted report.decision_status
    then pure report
    else reject_if (not (is_undecided report.decision_status)) (bad_request already_decided)
      >> commit_decision wanted write follow_up

unfoldable pub notify_accepted : (id : ℕ) → Booking → Action (Unit {0})
notify_accepted id booking = do
  user ← reads (worker_user booking)
  emit_to user (λ u. notify u "booking.inspection.quote_accepted" id)

unfoldable pub accept_authorized :
    (now id : ℕ) → Booking × (ℕ × InspectionReport) → Action InspectionReport
unfolding decide notify_accepted
accept_authorized now id (booking, (report_id, report)) =
    decide is_accepted_repair
      (mark_accepted_and_finalize_repair_price report_id id report.repair_quote_total
        (calculate_platform_fee report.labour_cost) now)
      (notify_accepted id booking) report

-- `acceptQuote`
unfoldable pub accept_quote : (now user id : ℕ) → Action InspectionReport
unfolding accept_authorized
accept_quote now user id = authorize_report user id >>= accept_authorized now id

unfoldable pub close_authorized :
    (now id : ℕ) → Booking × (ℕ × InspectionReport) → Action InspectionReport
unfolding decide
close_authorized now id (booking, (report_id, report)) =
    decide is_closed (mark_closed report_id now) (complete_after_inspection_close now id >> pure tt)
      report

-- `closeAfterInspection`: two transactions, the report's and the booking's.
unfoldable pub close_after_inspection : (now user id : ℕ) → Action InspectionReport
unfolding close_authorized
close_after_inspection now user id = authorize_report user id >>= close_authorized now id
