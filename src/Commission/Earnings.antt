-- ===== src/Commission/Earnings.antt =====
-- What a booking earns by backend/src/common/utils/commission.util.ts: base, fee and earnings.
use easyrepair.Prelude.{
  ℕ, ◌+◌, ◌≤◌, ◌≡◌, ◌⊎◌, Bool, true, false, Option, none, some, arith, if◌then◌else◌, or_else,
}
use easyrepair.Schema.{BookingLane, InspectionDecisionStatus}
use easyrepair.Commission.{
  ReportTerms, CommissionBaseInput, calculate_commission_base, calculate_platform_fee,
  calculate_worker_earning, calculate_gross_worker_earning,
}

-- The fee and the worker's earning split the commission base exactly, and the fee is at most the
-- base.
pub worker_earning-platform_fee :
    (base : ℕ)
    → (calculate_worker_earning base (calculate_platform_fee base) + calculate_platform_fee base
        ≡ base)
      × (calculate_platform_fee base ≤ base)
unfolding calculate_worker_earning calculate_platform_fee
worker_earning-platform_fee base = omega arith

-- A larger base never lowers the worker's earning.
pub worker_earning_mono :
    (a b : ℕ)
    → a ≤ b
    → calculate_worker_earning a (calculate_platform_fee a)
      ≤ calculate_worker_earning b (calculate_platform_fee b)
unfolding calculate_worker_earning calculate_platform_fee
worker_earning_mono a b h = omega arith

-- A visit that was only inspected: an inspection booking with no report, an undecided one, or one
-- closed after the inspection.
abbrev is_undecided_or_closed : InspectionDecisionStatus → Bool
is_undecided_or_closed InspectionDecisionStatus.pending_client_decision = true
is_undecided_or_closed InspectionDecisionStatus.closed_after_inspection = true
is_undecided_or_closed _ = false

abbrev pub is_visit_only : BookingLane → Option ReportTerms → Bool
is_visit_only BookingLane.inspection none = true
is_visit_only BookingLane.inspection (some r) = is_undecided_or_closed r.decision_status
is_visit_only _ _ = false

-- Of a visit that was only inspected the commission base is 0 and the gross earning is the final
-- price (0 where there is none); of every other booking the gross earning is the commission base
-- (0 where there is none).
pub gross_earning-commission_base :
    (input : CommissionBaseInput)
    → (calculate_gross_worker_earning input ≡ (
        if is_visit_only input.lane input.inspection_report
        then or_else input.final_price 0
        else or_else (calculate_commission_base input) 0))
      × ((is_visit_only input.lane input.inspection_report ≡ false)
          ⊎ (calculate_commission_base input ≡ some 0))
unfolding calculate_commission_base calculate_gross_worker_earning
gross_earning-commission_base input = ground arith
