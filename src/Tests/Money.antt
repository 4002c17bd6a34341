-- ===== src/Tests/Money.antt =====
-- Settlements and earnings at one booking's numbers.
use easyrepair.Prelude.{◌≡◌, false, arith}
use easyrepair.Commission.Settlement.{
  hundredths, SettleBookingInput, BookingSettlementCalculation, allocate, settle_booking,
}
use easyrepair.Commission.Waterfall.{
  IsSoundAllocation, allocate_sound, returned-settle_booking, returned, is_payable,
}

abbrev calculation : BookingSettlementCalculation
calculation = allocate 1200 3000 500 4000 false

allocate_sound_example : IsSoundAllocation 1200 3000 500 4000 calculation
allocate_sound_example = allocate_sound 1200 3000 500 4000 (omega arith)

abbrev input : SettleBookingInput
input = record {
  quote_parts = hundredths 120000;
  quote_labour = hundredths 300000;
  inspection_fee = hundredths 50000;
  received = hundredths 400000;
  auto_settled = false;
}

returned-settle_booking_example :
    returned (settle_booking input)
    ≡ is_payable (hundredths 120000) (hundredths 300000) (hundredths 50000) (hundredths 400000)
returned-settle_booking_example = returned-settle_booking input
