-- ===== src/Inspections/Decisions/Pricing.antt =====
-- What the acceptance of a repair quote does, whatever happened between its reads and its transaction.
use easyrepair.Prelude.{
  ℕ, ◌≡◌, ◌⊎◌, refl, inl, inr, Bool, true, false, ◌&&◌, some, arith, Option-cases, holds_id, is_row,
}
use easyrepair.Schema.{Booking, InspectionReport, is_accepted_repair, is_undecided}
use easyrepair.Commission.{calculate_platform_fee}
use easyrepair.Store.{Db, Result, ok, err}
use easyrepair.Store.Actions.{IsReading, reading_rule}
use easyrepair.Bookings.Lookups.{report_of}
use easyrepair.Inspections.Transactions.{mark_accepted_and_finalize_repair_price}
use easyrepair.Inspections.Decisions.{
  authorize_report, settle_lost_decision, commit_decision, decide, notify_accepted,
  accept_authorized, accept_quote,
}

abbrev pub is_open_report : InspectionReport → Bool
is_open_report r = is_undecided r.decision_status

abbrev pub is_taken_report : InspectionReport → Bool
is_taken_report r = is_accepted_repair r.decision_status

-- The price is the quote, and the fee is the platform's share of the labour alone.
abbrev pub is_repair_priced : InspectionReport → Booking → Bool
is_repair_priced r b =
    holds_id b.final_price r.repair_quote_total
    && holds_id b.platform_fee (calculate_platform_fee r.labour_cost)

-- The quote was accepted: the report was undecided, and in one step it is ACCEPTED_REPAIR and its
-- booking priced by it.
pub record NewQuote (id report : ℕ) (r : InspectionReport) (db db' : Db) : Type 0 where
  pub was_open : is_row is_open_report (db.reports report) ≡ true
  pub accepted : is_row is_taken_report (db'.reports report) ≡ true
  pub priced : is_row (is_repair_priced r) (db'.bookings id) ≡ true

abbrev pub QuoteOutcome :
    (id report : ℕ) → InspectionReport → Db → Result InspectionReport × Db → Type 0
QuoteOutcome id report r db (err e, db') = db' ≡ db
QuoteOutcome id report r db (ok updated, db') =
    (is_taken_report updated ≡ true) × ((db' ≡ db) ⊎ NewQuote id report r db db')

abbrev WriteOutcome :
    (id report : ℕ) → InspectionReport → Db → Result ((InspectionReport × Bool) × Db) → Type 0
WriteOutcome id report r db (err e) = Unit
WriteOutcome id report r db (ok ((updated, false), db')) = db' ≡ db
WriteOutcome id report r db (ok ((updated, true), db')) =
    (is_taken_report updated ≡ true) × NewQuote id report r db db'

write_outcome :
    (id report now : ℕ) (r : InspectionReport) (db : Db)
    → WriteOutcome id report r db (
        mark_accepted_and_finalize_repair_price report id r.repair_quote_total
          (calculate_platform_fee r.labour_cost)
          now
          db)
unfolding mark_accepted_and_finalize_repair_price
write_outcome id report now r db = elim (Option-cases (db.reports report)) [
  | inl missing ↦ ground arith
  | inr (old, there) ↦ elim (Option-cases (db.bookings id)) [
    | inl gone ↦ ground arith
    | inr (b, found) ↦ ground arith
  ]
]

accept_authorized_outcome :
    (now id report : ℕ) (b : Booking) (r : InspectionReport) (seen db : Db)
    → QuoteOutcome id report r db (accept_authorized now id (b, (report, r)) seen db)
unfolding accept_authorized decide commit_decision settle_lost_decision notify_accepted
accept_authorized_outcome now id report b r seen db =
    ground (arith, write_outcome id report now r db)

pub authorize_report-IsReading : (user id : ℕ) → IsReading (authorize_report user id)
unfolding authorize_report
authorize_report-IsReading user id seen db = ground arith

pub authorize_report-found :
    (user id : ℕ) (seen db : Db) (r : Booking × (ℕ × InspectionReport))
    → (authorize_report user id seen db).0 ≡ ok r
    → report_of id seen ≡ some r.1
unfolding authorize_report
authorize_report-found user id seen db r h = ground arith

-- The same with the report that the request read, if it read one.
abbrev pub ReadQuote : (id : ℕ) → (seen db : Db) → Result InspectionReport × Db → Type 0
ReadQuote id seen db result =
    (result.1 ≡ db)
    ⊎ ((r : ℕ × InspectionReport) × (report_of id seen ≡ some r)
        × QuoteOutcome id r.0 r.1 db result)

-- Whatever `acceptQuote` read before, and whatever was written in between: it writes nothing, or
-- it read a report, and then one that throws writes nothing, and one that returns gives a report
-- that is ACCEPTED_REPAIR and either wrote nothing or found the report undecided and, in one step,
-- made it ACCEPTED_REPAIR and priced the booking at the quote that it had read, with the
-- platform's share of the labour alone as the fee.
pub accept_quote_outcome :
    (now user id : ℕ) (seen db : Db) → ReadQuote id seen db (accept_quote now user id seen db)
unfolding accept_quote
accept_quote_outcome now user id seen db =
    reading_rule (ReadQuote id seen db) (authorize_report user id) (accept_authorized now id) seen
      db (authorize_report-IsReading user id) (λ e. inl refl)
      (λ r found. inr (
        r.1,
        authorize_report-found user id seen db r found,
        accept_authorized_outcome now id r.1.0 r.0 r.1.1 seen db,
      ))
