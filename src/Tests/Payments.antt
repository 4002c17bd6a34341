-- ===== src/Tests/Payments.antt =====
-- Payments of one finished job, and the night after.
use easyrepair.Ledger.Fractions.{fraction_refused}
use easyrepair.Steps.Refuses.{IsRefusal}
use easyrepair.Ledger.Complete.{nightly_collects, IsWaiting}
use easyrepair.Ledger.Collecting.{run_nightly}
use easyrepair.Ledger.Eligible.{is_replaced, is_in_live_collection, is_eligible}
use easyrepair.Ledger.Collected.{serve-IsCollectedOnce}
use easyrepair.Ledger.Once.{IsCollectedOnce}
use easyrepair.Ledger.Writes.{
  open_cases, is_taken, create_row, supersede, create_settlement, current_settlement,
}
use easyrepair.Ledger.Settling.{
  was_notified, notify_worker_of_payment, without_auto, expected_money, check_current,
  persist_settlement,
}
use easyrepair.Ledger.Confirmations.{confirm_twice}
use easyrepair.Ledger.Settling.Payments.{settle_once, confirm_client_cash_payment}
use easyrepair.Ledger.Balance.{IsBalanced}
use easyrepair.Prelude.{
  ℕ, ◌≡◌, refl, true, false, none, some, List, [], ◌∷◌, arith, put, find_first,
}
use easyrepair.Schema.{BookingStatus, BookingLane}
use easyrepair.Steps.{done}
use easyrepair.Commission.Settlement.{allocate, settle_booking, to_whole_rupees}
use easyrepair.Commission.{math_round, calculate_platform_fee}
use easyrepair.Ledger.State.{
  LedgerDb, LedgerBooking, BookingSettlement, SettlementSource, CommissionCollectionStatus,
}
use easyrepair.Ledger.Requests.{
  LedgerRequest, client_confirms, night_falls, collection_changes, serve_all-IsBalanced, serve_all,
  serve,
}

-- Labour for 3000 rupees, done by the worker 1 (user 201) for the user 100.
abbrev job : LedgerBooking
job = record {
  client_user_id = 100;
  worker_profile_id = some 1;
  worker_user_id = some 201;
  status = BookingStatus.completed;
  lane = BookingLane.standard;
  final_price = some 300000;
  inspection_fee_snapshot = none;
  report = none;
  commission_paid = false;
}

abbrev ledger : LedgerDb
ledger = record {
  bookings = put 1 job (λ _. none);
  settlements = λ _. none;
  next_settlement = 0;
  cases = λ _. none;
  next_case = 0;
  events = [];
  collections = λ _. none;
  next_collection = 0;
  notices = [];
}

ledger-IsBalanced : IsBalanced ledger
ledger-IsBalanced = record { numbered = λ i. tt; one_current = λ i j a b e. cc; entries = λ k. tt }

-- The client pays 2000 rupees, at night the commission is collected.
abbrev day : List (ℕ × LedgerRequest)
day =
    (5, client_confirms ledger ledger 1 2000 100)
    ∷ (6, night_falls 20 none (serve 5 (client_confirms ledger ledger 1 2000 100) ledger))
    ∷ (7, collection_changes 0 CommissionCollectionStatus.collected false)
    ∷ []

serve_all-IsBalanced_example : IsBalanced (serve_all day ledger)
serve_all-IsBalanced_example = serve_all-IsBalanced day ledger ledger-IsBalanced

abbrev first_payment : BookingSettlement
first_payment = record {
  booking_id = 1;
  worker_profile_id = 1;
  supersedes_id = none;
  is_current = true;
  received = 2000;
  source = SettlementSource.client;
  money = allocate 0 3000 0 2000 false;
  settled_by_user_id = 100;
  settled_at = 5;
}

abbrev after_payment : LedgerDb
after_payment = (confirm_client_cash_payment 5 ledger ledger 1 2000 100 ledger).1

pays :
    confirm_client_cash_payment 5 ledger ledger 1 2000 100 ledger
    ≡ (done (0, first_payment), after_payment)
unfolding confirm_client_cash_payment settle_once persist_settlement current_settlement find_first
    check_current expected_money settle_booking to_whole_rupees math_round without_auto
    create_settlement supersede create_row is_taken open_cases notify_worker_of_payment was_notified
    allocate calculate_platform_fee
pays = refl

confirm_twice_example :
    confirm_client_cash_payment 9 after_payment ledger 1 2000 100 after_payment
    ≡ (done (0, first_payment), after_payment)
confirm_twice_example =
    confirm_twice 5 9 ledger ledger ledger after_payment 1 2000 100 (0, first_payment) pays

-- The night after the payment.
abbrev night : LedgerRequest
night = night_falls 20 none after_payment

after_payment-IsBalanced : IsBalanced after_payment
unfolding serve_all serve confirm_client_cash_payment
after_payment-IsBalanced =
    serve_all-IsBalanced ((5, client_confirms ledger ledger 1 2000 100) ∷ []) ledger
      ledger-IsBalanced

ledger-IsCollectedOnce : IsCollectedOnce ledger
ledger-IsCollectedOnce settlement k j c d e = cc

after_payment-IsCollectedOnce : IsCollectedOnce after_payment
unfolding serve confirm_client_cash_payment
after_payment-IsCollectedOnce =
    serve-IsCollectedOnce 5 (client_confirms ledger ledger 1 2000 100) ledger ledger-IsBalanced refl
      ledger-IsCollectedOnce

serve-IsCollectedOnce_example : IsCollectedOnce (serve 6 night after_payment)
serve-IsCollectedOnce_example =
    serve-IsCollectedOnce 6 night after_payment after_payment-IsBalanced refl
      after_payment-IsCollectedOnce

-- The payment waits for the night.
waiting : IsWaiting 20 none 0 first_payment after_payment
unfolding confirm_client_cash_payment settle_once persist_settlement current_settlement find_first
    check_current expected_money settle_booking to_whole_rupees math_round without_auto
    create_settlement supersede create_row is_taken open_cases notify_worker_of_payment was_notified
    allocate calculate_platform_fee is_eligible is_replaced is_in_live_collection
waiting = record {
  stored = refl;
  numbered = omega arith;
  current = refl;
  eligible = refl;
  no_collection = refl;
}

nightly_collects_example :
    is_in_live_collection 0 (run_nightly 20 none after_payment after_payment).1 ≡ true
nightly_collects_example =
    nightly_collects 20 none 0 first_payment after_payment after_payment
      (record { read = waiting.stored; below = waiting.numbered; fits = waiting.eligible }) waiting

-- A price of 3000.50 rupees.
abbrev fraction_ledger : LedgerDb
fraction_ledger = record ledger {
  bookings = put 1 (record job { final_price = some 300050 }) (λ _. none);
}

fraction_refused_example :
    IsRefusal fraction_ledger
      (persist_settlement 5 100 fraction_ledger 1 3000 SettlementSource.client none fraction_ledger)
unfolding expected_money
fraction_refused_example =
    fraction_refused 5 100 fraction_ledger 1 3000 SettlementSource.client none
      (record job { final_price = some 300050 })
      (record { quote_parts = 0; quote_labour = 300050; inspection_fee = 0 }) fraction_ledger refl
      refl refl
