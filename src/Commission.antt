-- ===== src/Commission.antt =====
-- backend/src/common/utils/commission.util.ts: the money that a booking earns the platform and the
-- worker. Prices are floats with two decimals in the source; here they are whole numbers of
-- hundredths of a rupee, so that `Math.round(x * 100) / 100` is a rounded division.
pub mod Settlement
pub mod Earnings
pub mod Waterfall
use easyrepair.Prelude.{ℕ, ◌+◌, ◌-◌, ◌*◌, ◌/◌, Option, none, some, or_else}
use easyrepair.Schema.{BookingLane, InspectionDecisionStatus}

-- The `inspectionReport` of `CommissionBaseInput`.
pub record ReportTerms : Type 0 where
  pub labour_cost : ℕ
  pub decision_status : InspectionDecisionStatus

pub record CommissionBaseInput : Type 0 where
  pub lane : BookingLane
  pub final_price : Option ℕ
  pub inspection_report : Option ReportTerms

-- `Math.round`, from hundredths to whole rupees; a half is rounded up.
unfoldable pub math_round : ℕ → ℕ
math_round hundredths = (hundredths + 50) / 100

-- PLATFORM_COMMISSION_RATE, in hundredths.
abbrev pub platform_commission_rate : ℕ
platform_commission_rate = 18

inspection_base : InspectionDecisionStatus → ℕ → Option ℕ → Option ℕ
inspection_base InspectionDecisionStatus.accepted_repair labour final_price = some labour
inspection_base InspectionDecisionStatus.find_other_ustaad labour final_price = final_price
inspection_base _ labour final_price = some 0

commission_base : BookingLane → Option ReportTerms → Option ℕ → Option ℕ
unfolding inspection_base
commission_base BookingLane.inspection none final_price = some 0
commission_base BookingLane.inspection (some r) final_price =
    inspection_base r.decision_status r.labour_cost final_price
commission_base _ report final_price = final_price

unfoldable pub calculate_commission_base : CommissionBaseInput → Option ℕ
unfolding commission_base
calculate_commission_base input =
    commission_base input.lane input.inspection_report input.final_price

-- `Math.round(commissionBase * PLATFORM_COMMISSION_RATE * 100) / 100`
unfoldable pub calculate_platform_fee : ℕ → ℕ
calculate_platform_fee base = (base * platform_commission_rate + 50) / 100

-- Truncated subtraction is the source's `Math.max(0, …)`.
unfoldable pub calculate_worker_earning : ℕ → ℕ → ℕ
calculate_worker_earning base fee = base - fee

inspection_gross : InspectionDecisionStatus → ℕ → Option ℕ → ℕ
inspection_gross InspectionDecisionStatus.accepted_repair labour final_price = labour
inspection_gross _ labour final_price = or_else final_price 0

gross_earning : BookingLane → Option ReportTerms → Option ℕ → ℕ
unfolding inspection_gross
gross_earning BookingLane.inspection (some r) final_price =
    inspection_gross r.decision_status r.labour_cost final_price
gross_earning _ _ final_price = or_else final_price 0

unfoldable pub calculate_gross_worker_earning : CommissionBaseInput → ℕ
unfolding gross_earning
calculate_gross_worker_earning input =
    gross_earning input.lane input.inspection_report input.final_price
