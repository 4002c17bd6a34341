-- ===== src/Ledger/Fractions.antt =====
-- Prices that are not whole rupees.
use easyrepair.Ledger.Recording.{Chosen}
use easyrepair.Ledger.Settling.{
  settle_read, settle_expected, calculate, expected_money, check_current, persist_settlement,
}
use easyrepair.Ledger.Writes.{create_settlement, is_whole, ExpectedMoney}
use easyrepair.Prelude.{ℕ, ◌≡◌, false, Option, some, List, arith}
use easyrepair.Commission.Settlement.{SettlementCaseType}
use easyrepair.Steps.Refuses.{
  require-Reads, reject-Reads, required-Refuses, sequence-Refuses, raise-Refuses, handled-Refuses,
  IsRefusal, first-Refuses, bind-Refuses, Reads, Refuses, transact-Refuses, rejected-Fails,
  sequence-Fails,
}
use easyrepair.Ledger.State.{
  final_price_missing, LedgerDb, SettlementSource, LedgerBooking, BookingSettlement,
}
use easyrepair.Steps.{◌>>=◌, require}

calculate-Reads : (expected : ExpectedMoney) (received : ℕ) → Reads (calculate expected received)
calculate-Reads expected received = record { same = λ s. ground arith }

check_current-Reads :
    (seen : LedgerDb) (current : Option Chosen) (supersedes_id : Option ℕ)
    → Reads (check_current seen current supersedes_id)
unfolding check_current
check_current-Reads seen current supersedes_id = record { same = λ s. ground arith }

module _ (now actor : ℕ) (expected : ExpectedMoney) (fraction : is_whole expected ≡ false) where
  create_refused :
      (row : BookingSettlement) (types : List SettlementCaseType)
      → Refuses (create_settlement now actor expected row types)
  unfolding create_settlement
  create_refused row types = rw fraction (search (transact-Refuses, sequence-Fails, rejected-Fails))

  calculation_refused :
      (booking worker received : ℕ) (source : SettlementSource) (supersedes_id user : Option ℕ)
      → Refuses
          (settle_expected now actor booking worker received source supersedes_id user expected)
  calculation_refused booking worker received source supersedes_id user =
      search
        (
          bind-Refuses,
          calculate-Reads expected received,
          first-Refuses,
          handled-Refuses,
          create_refused,
          raise-Refuses,
        )
        depth 12

-- A booking whose expected money is not a whole number of rupees can never be settled: the columns
-- of a settlement are integers, so every attempt, by whomever and whatever was received, fails and
-- writes nothing.
pub fraction_refused :
    (now actor : ℕ) (seen : LedgerDb) (booking received : ℕ) (source : SettlementSource)
    (supersedes_id : Option ℕ) (b : LedgerBooking) (m : ExpectedMoney) (db : LedgerDb)
    → seen.bookings booking ≡ some b
    → expected_money b.lane b.report b.inspection_fee_snapshot b.final_price ≡ some m
    → is_whole m ≡ false
    → IsRefusal db (persist_settlement now actor seen booking received source supersedes_id db)
unfolding persist_settlement
fraction_refused now actor seen booking received source supersedes_id b m db found price fraction =
    rw found (read.refused db)
  where
    still :
        (expected : ExpectedMoney)
        → expected_money b.lane b.report b.inspection_fee_snapshot b.final_price ≡ some expected
        → is_whole expected ≡ false
    still expected same = ground arith

    priced :
        (worker : ℕ) (expected : ExpectedMoney)
        → expected_money b.lane b.report b.inspection_fee_snapshot b.final_price ≡ some expected
        → Refuses (
            settle_expected now actor booking worker received source supersedes_id b.worker_user_id
              expected)
    priced worker expected same =
        calculation_refused now actor expected (still expected same) booking worker received source
          supersedes_id b.worker_user_id

    expecting :
        (worker : ℕ)
        → Refuses (
            require
              (expected_money b.lane b.report b.inspection_fee_snapshot b.final_price)
              final_price_missing
            >>= settle_expected now actor booking worker received source supersedes_id
                b.worker_user_id)
    expecting worker =
        required-Refuses (expected_money b.lane b.report b.inspection_fee_snapshot b.final_price)
          final_price_missing
          (settle_expected now actor booking worker received source supersedes_id b.worker_user_id)
          (priced worker)

    read : Refuses (settle_read now actor seen booking received source supersedes_id b)
    read =
        search
          (
            bind-Refuses, sequence-Refuses, reject-Reads, require-Reads, check_current-Reads,
            expecting,
          )
          depth 12
