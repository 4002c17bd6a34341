-- ===== src/Commission/Settlement.antt =====
-- `settleBooking` of backend/src/common/utils/commission.util.ts: how the cash that was received is
-- allocated to parts, labour and the inspection fee.
use easyrepair.Prelude.{
  ℕ, ◌+◌, ◌-◌, ◌*◌, min, Bool, true, false, ◌&&◌, ◌||◌, List, [], ◌∷◌, ◌++◌, ltb, ◌==◌,
  if◌then◌else◌,
}
use easyrepair.Commission.{math_round, calculate_platform_fee}

pub data SettlementCaseType : Type 0 where
  short unpaid_labour unpaid_fee auto_settle : SettlementCaseType

-- A JavaScript number, as far as `toWholeRupees` tells them apart; amounts are in hundredths.
pub data Amount : Type 0 where
  hundredths : ℕ → Amount
  negative not_finite : Amount

pub record SettleBookingInput : Type 0 where
  pub quote_parts : Amount
  pub quote_labour : Amount
  pub inspection_fee : Amount
  pub received : Amount
  pub auto_settled : Bool

pub record BookingSettlementCalculation : Type 0 where
  pub expected_total : ℕ
  pub parts_paid : ℕ
  pub labour_paid : ℕ
  pub fee_paid : ℕ
  pub commission : ℕ
  pub munafa : ℕ
  pub shortfall : ℕ
  pub handygo_pays : ℕ
  pub case_types : List SettlementCaseType

-- The two messages of `RangeError`.
pub data RangeError : Type 0 where
  not_a_money_value exceeds_total : RangeError

pub data Outcome (A : Type 0) : Type 0 where
  returns : A → Outcome A
  throws : RangeError → Outcome A

infixl 5 ◌>>=◌
abbrev pub ◌>>=◌ : {A B : Type 0} → Outcome A → (A → Outcome B) → Outcome B
returns a >>= k = k a
throws e >>= k = throws e

unfoldable pub to_whole_rupees : Amount → Outcome ℕ
unfolding math_round
to_whole_rupees (hundredths n) = returns (math_round n)
to_whole_rupees negative = throws not_a_money_value
to_whole_rupees not_finite = throws not_a_money_value

-- `if (test) caseTypes.push(type)`
abbrev pub push_if : Bool → SettlementCaseType → List SettlementCaseType
push_if true c = c ∷ []
push_if false c = []

-- The cases inside `if (shortfall > 0)`, from the quote and what was paid of it.
shortfall_cases : (parts labour fee parts_paid labour_paid fee_paid : ℕ) → List SettlementCaseType
shortfall_cases parts labour fee parts_paid labour_paid fee_paid =
    push_if (ltb parts_paid parts || (ltb 0 labour_paid && ltb labour_paid labour)) short
    ++ (push_if (ltb 0 labour && labour_paid == 0) unpaid_labour
        ++ push_if (ltb fee_paid fee) unpaid_fee)

-- The waterfall, in whole rupees. `remaining` falls by what each part takes.
unfoldable pub allocate : (parts labour fee received : ℕ) → Bool → BookingSettlementCalculation
unfolding math_round calculate_platform_fee shortfall_cases
allocate parts labour fee received auto_settled =
    let expected_total = parts + labour + fee in
    let parts_paid = min parts received in
    let remaining = received - parts_paid in
    let labour_paid = min labour remaining in
    let remaining' = remaining - labour_paid in
    let fee_paid = min fee remaining' in
    let shortfall = expected_total - parts_paid - labour_paid - fee_paid in
    let handygo_pays = fee - fee_paid in
    let commission = math_round (calculate_platform_fee (labour_paid * 100)) in
    record {
      expected_total = expected_total;
      parts_paid = parts_paid;
      labour_paid = labour_paid;
      fee_paid = fee_paid;
      commission = commission;
      munafa = labour_paid - commission + fee_paid + handygo_pays;
      shortfall = shortfall;
      handygo_pays = handygo_pays;
      case_types =
          (if ltb 0 shortfall
            then shortfall_cases parts labour fee parts_paid labour_paid fee_paid
            else [])
          ++ push_if auto_settled auto_settle;
    }

unfoldable pub settle_booking : SettleBookingInput → Outcome BookingSettlementCalculation
unfolding to_whole_rupees
settle_booking input = do
  parts ← to_whole_rupees input.quote_parts
  labour ← to_whole_rupees input.quote_labour
  fee ← to_whole_rupees input.inspection_fee
  received ← to_whole_rupees input.received
  if ltb (parts + labour + fee) received
      then throws exceeds_total
      else returns (allocate parts labour fee received input.auto_settled)
