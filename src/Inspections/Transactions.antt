-- ===== src/Inspections/Transactions.antt =====
-- The guarded writes of backend/src/modules/inspection-reports/inspection-reports.repository.ts. Each
-- gives the report as it is afterwards, and `changed`.
use easyrepair.Prelude.{ℕ, Bool, true, false, Option, none, some, if◌then◌else◌, put}
use easyrepair.Schema.{InspectionDecisionStatus, is_undecided, InspectionReport}
use easyrepair.Store.{Result, ok, err, record_not_found, Db, ◌>>=◌, Transaction, booking_update}

-- `updateMany({ where: { id, decisionStatus IN fromStatuses }, data })`: `none` where the count is 0.
decide_if :
    ℕ
    → (from : InspectionDecisionStatus → Bool) → (change : InspectionReport → InspectionReport) → Db
    → Option Db
decide_if id from change db = elim (db.reports id) [
  | none ↦ none
  | some r ↦
      if from r.decision_status
      then some (record db { reports = put id (change r) db.reports })
      else none
]

-- `findUniqueOrThrow` after the write.
report_after : ℕ → (changed : Bool) → Db → Result ((InspectionReport × Bool) × Db)
report_after id changed db = elim (db.reports id) [
  | none ↦ err record_not_found
  | some r ↦ ok ((r, changed), db)
]

abbrev pub accept_report : (now : ℕ) → InspectionReport → InspectionReport
accept_report now r = record r {
  decision_status = InspectionDecisionStatus.accepted_repair;
  accepted_at = some now;
}

-- `markAccepted`
unfoldable pub mark_accepted :
    (id : ℕ)
    → (from : InspectionDecisionStatus → Bool) → (now : ℕ) → Transaction (InspectionReport × Bool)
unfolding decide_if report_after
mark_accepted id from now db = elim (decide_if id from (accept_report now) db) [
  | none ↦ report_after id false db
  | some db₁ ↦ report_after id true db₁
]

-- `markAcceptedAndFinalizeRepairPrice`
unfoldable pub mark_accepted_and_finalize_repair_price :
    (id booking repair_quote_total platform_fee now : ℕ) → Transaction (InspectionReport × Bool)
unfolding decide_if report_after
mark_accepted_and_finalize_repair_price id booking repair_quote_total platform_fee now db =
    elim (decide_if id is_undecided (accept_report now) db) [
      | none ↦ report_after id false db
      | some db₁ ↦ do
        db₂ ←
            booking_update booking
              (λ b. record b {
                final_price = some repair_quote_total;
                platform_fee = some platform_fee;
              })
              db₁
        report_after id true db₂
    ]

-- `markClosed`
unfoldable pub mark_closed : (id now : ℕ) → Transaction (InspectionReport × Bool)
unfolding decide_if report_after
mark_closed id now db =
    elim (decide_if id is_undecided
      (λ r. record r {
        decision_status = InspectionDecisionStatus.closed_after_inspection;
        closed_at = some now;
      })
      db) [ none ↦ report_after id false db | some db₁ ↦ report_after id true db₁ ]
