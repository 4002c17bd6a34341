-- ===== src/Commission/Waterfall.antt =====
-- How `settleBooking` of backend/src/common/utils/commission.util.ts allocates the cash.
use easyrepair.Prelude.{
  ℕ, ◌+◌, ◌-◌, ◌*◌, ◌/◌, ◌≤◌, min, ◌≡◌, ◌↔◌, ◌⊎◌, Bool, true, false, ◌&&◌, [], arith, leb,
}
use easyrepair.Commission.{math_round, calculate_platform_fee}
use easyrepair.Commission.Settlement.{
  Amount, hundredths, SettleBookingInput, BookingSettlementCalculation, Outcome, returns, throws,
  allocate, settle_booking,
}

commission-le : (labour : ℕ) → math_round (calculate_platform_fee (labour * 100)) ≤ labour
unfolding math_round calculate_platform_fee
commission-le labour = omega arith

allocate-conserves :
    (parts labour fee received : ℕ) (auto_settled : Bool)
    → received ≤ parts + labour + fee
    → let c = allocate parts labour fee received auto_settled in
      (c.parts_paid + c.labour_paid + c.fee_paid ≡ received)
      × (c.shortfall + received ≡ parts + labour + fee)
      × (c.munafa + c.commission ≡ c.labour_paid + fee)
      × (c.fee_paid + c.handygo_pays ≡ fee)
unfolding allocate
allocate-conserves parts labour fee received auto_settled h =
    omega (arith, commission-le (min labour (received - min parts received)))

allocate_waterfall :
    (parts labour fee received : ℕ) (auto_settled : Bool)
    → let c = allocate parts labour fee received auto_settled in
      ((c.labour_paid ≡ 0) ⊎ (c.parts_paid ≡ parts))
      × ((c.fee_paid ≡ 0) ⊎ (c.labour_paid ≡ labour))
      × (c.commission ≡ (c.labour_paid * 18 + 50) / 100)
      × (c.commission ≤ c.labour_paid)
unfolding allocate calculate_platform_fee math_round
allocate_waterfall parts labour fee received auto_settled = ground arith

allocate-case_types :
    (parts labour fee received : ℕ)
    → received ≤ parts + labour + fee
    → ((allocate parts labour fee received false).case_types ≡ [])
      ↔ (received ≡ parts + labour + fee)
unfolding allocate
allocate-case_types parts labour fee received h = (λ e. ground arith, λ e. ground arith)

-- What the client paid of the quote and what follows from it.
pub record IsSoundAllocation (parts labour fee received : ℕ) (c : BookingSettlementCalculation)
    : Type 0 where
  pub allocated : c.parts_paid + c.labour_paid + c.fee_paid ≡ received
  pub missing : c.shortfall + received ≡ parts + labour + fee
  pub shared : c.munafa + c.commission ≡ c.labour_paid + fee
  pub topped_up : c.fee_paid + c.handygo_pays ≡ fee
  pub parts_first : (c.labour_paid ≡ 0) ⊎ (c.parts_paid ≡ parts)
  pub labour_first : (c.fee_paid ≡ 0) ⊎ (c.labour_paid ≡ labour)
  pub rate : c.commission ≡ (c.labour_paid * 18 + 50) / 100
  pub commission_bound : c.commission ≤ c.labour_paid
  pub cases : (c.case_types ≡ []) ↔ (received ≡ parts + labour + fee)

-- When the received cash does not exceed the quote and the booking is not settled automatically:
-- every rupee received is allocated and what is not received is the shortfall; the worker's
-- `munafa` and the platform's commission together are the labour paid and the whole inspection fee,
-- and HandyGo pays the part of the fee that the client did not. Labour is paid only once the parts
-- are paid in full, and the fee only once the labour is; the commission is 18% of the labour paid,
-- rounded to whole rupees with halves up, and never more than that labour; cases are opened exactly
-- when something is short.
pub allocate_sound :
    (parts labour fee received : ℕ)
    → received ≤ parts + labour + fee
    → IsSoundAllocation parts labour fee received (allocate parts labour fee received false)
allocate_sound parts labour fee received h =
    let (allocated, missing, shared, topped_up) =
      allocate-conserves parts labour fee received false h in
    let (parts_first, labour_first, rate, commission_bound) =
      allocate_waterfall parts labour fee received false in
    record {
      allocated = allocated;
      missing = missing;
      shared = shared;
      topped_up = topped_up;
      parts_first = parts_first;
      labour_first = labour_first;
      rate = rate;
      commission_bound = commission_bound;
      cases = allocate-case_types parts labour fee received h;
    }

-- Whether a value is money to `settleBooking`, and how many whole rupees it is.
abbrev is_money : Amount → Bool
is_money (hundredths _) = true
is_money _ = false

abbrev rupees : Amount → ℕ
rupees (hundredths n) = math_round n
rupees _ = 0

abbrev pub is_payable : (parts labour fee received : Amount) → Bool
is_payable p l f r =
    is_money p
    && (is_money l
        && (is_money f && (is_money r && leb (rupees r) (rupees p + rupees l + rupees f))))

abbrev pub returned : {A : Type 0} → Outcome A → Bool
returned (returns _) = true
returned (throws _) = false

returned-settle_amounts :
    (p l f r : Amount) (auto : Bool)
    → returned (
        settle_booking (record {
          quote_parts = p;
          quote_labour = l;
          inspection_fee = f;
          received = r;
          auto_settled = auto;
        }))
      ≡ is_payable p l f r
unfolding settle_booking
returned-settle_amounts (hundredths p) (hundredths l) (hundredths f) (hundredths r) auto =
    ground arith
returned-settle_amounts _ _ _ _ auto = ground arith

-- `settleBooking` returns, and does not throw, exactly when the four values are finite and not
-- negative and the received cash, rounded to rupees, is at most the rounded payable total.
pub returned-settle_booking :
    (input : SettleBookingInput)
    → returned (settle_booking input)
      ≡ is_payable input.quote_parts input.quote_labour input.inspection_fee input.received
returned-settle_booking input =
    returned-settle_amounts input.quote_parts input.quote_labour input.inspection_fee input.received
      input.auto_settled
