-- ===== src/Ledger/Settling.antt =====
-- How a settlement is written: `persistSettlement` and `expectedMoney` of
-- backend/src/modules/admin/admin-operations.service.ts. `seen` is the state when the request read
-- its booking, which another request may have changed before the transaction starts. The texts of
-- notes and notices are left out.
pub mod Payments
use easyrepair.Prelude.{
  ℕ, zero, suc, ℤ, ◌+◌, ◌-◌, ◌*◌, ◌/◌, ◌%◌, ◌≤◌, ◌<◌, min, max, ◌≡◌, ◌≢◌, ◌↔◌, ◌⊎◌, refl, sym,
  subst, ap, ◌∙◌, inl, inr, Bool, true, false, not, ◌&&◌, ◌||◌, Option, none, some, List, [], ◌∷◌,
  ◌++◌, map, arith, ltb, leb, ◌==◌, if◌then◌else◌, Bool-cases, Option-cases, is_some, or_else,
  or_other, holds_id, Table, put, revise, update_many, find_first, find_first-some, find_first-none,
  find_first-put, find_first-new, ==_iff, put_rule, is_row,
}
use easyrepair.Steps.{
  pure, raise, reads, require, reject_if, modify, transact, catch_with, done, failed, ◌>>=◌, ◌>>◌,
}
use easyrepair.Ledger.Writes.{
  ExpectedMoney, create_settlement, is_in_collection, current_settlement,
}
use easyrepair.Schema.{BookingStatus, BookingLane, InspectionDecisionStatus}
use easyrepair.Commission.Settlement.{
  SettlementCaseType, short, unpaid_labour, unpaid_fee, auto_settle, Amount, hundredths,
  SettleBookingInput, BookingSettlementCalculation, Outcome, returns, throws, settle_booking,
}
use easyrepair.Ledger.State.{
  SettlementSource, SettlementCaseStatus, is_closed, SettlementCaseEventType, QuotedReport,
  LedgerBooking, BookingSettlement, SettlementCase, CaseEvent, CollectionItem, CommissionCollection,
  PaymentKey, payment_short, payment_received, same_key, PaymentNotice, LedgerDb, LedgerError,
  Ledger, booking_not_found, not_completed, no_worker, final_price_missing, range_error,
  must_supersede_current, already_settled, already_collected, settlement_changed, write_conflict,
  collected_conflict, unique_violation, not_an_integer,
}

-- `settleableStatuses.includes(status)`
abbrev pub is_settleable : BookingStatus → Bool
is_settleable BookingStatus.completed = true
is_settleable BookingStatus.awaiting_confirmation = true
is_settleable BookingStatus.settled = true
is_settleable _ = false

abbrev pub fee_only : (fee_snapshot final_price : Option ℕ) → ExpectedMoney
fee_only fee_snapshot final_price = record {
  quote_parts = 0;
  quote_labour = 0;
  inspection_fee = or_else (or_other fee_snapshot final_price) 0;
}

abbrev pub labour_only : Option ℕ → Option ExpectedMoney
labour_only none = none
labour_only (some price) =
    some (record { quote_parts = 0; quote_labour = price; inspection_fee = 0 })

abbrev pub inspection_money :
    InspectionDecisionStatus → QuotedReport → (fee_snapshot final_price : Option ℕ) → ExpectedMoney
inspection_money InspectionDecisionStatus.accepted_repair report fee_snapshot final_price = record {
  quote_parts = report.parts_total;
  quote_labour = report.labour_cost;
  inspection_fee = 0;
}
inspection_money _ report fee_snapshot final_price = fee_only fee_snapshot final_price

-- Missing is the error "Booking final price is missing".
unfoldable pub expected_money :
    BookingLane → Option QuotedReport → (fee_snapshot final_price : Option ℕ) → Option ExpectedMoney
expected_money BookingLane.inspection none fee_snapshot final_price =
    some (fee_only fee_snapshot final_price)
expected_money BookingLane.inspection (some report) fee_snapshot final_price =
    some (inspection_money report.decision_status report fee_snapshot final_price)
expected_money _ report fee_snapshot final_price = labour_only final_price

-- `settleBooking`, whose RangeError becomes a bad request.
abbrev pub or_bad_request :
    Outcome BookingSettlementCalculation → Ledger BookingSettlementCalculation
or_bad_request (returns calculation) = pure calculation
or_bad_request (throws e) = raise (range_error e)

abbrev pub calculate : ExpectedMoney → (received : ℕ) → Ledger BookingSettlementCalculation
calculate expected received = or_bad_request (
    settle_booking (record {
      quote_parts = hundredths expected.quote_parts;
      quote_labour = hundredths expected.quote_labour;
      inspection_fee = hundredths expected.inspection_fee;
      received = hundredths (received * 100);
      auto_settled = false;
    }))

-- `caseTypes.filter((type) => type !== 'AUTO_SETTLE')`
unfoldable pub without_auto : List SettlementCaseType → List SettlementCaseType
without_auto [] = []
without_auto (auto_settle ∷ types) = without_auto types
without_auto (short ∷ types) = short ∷ without_auto types
without_auto (unpaid_labour ∷ types) = unpaid_labour ∷ without_auto types
without_auto (unpaid_fee ∷ types) = unpaid_fee ∷ without_auto types

-- The checks of `persistSettlement` on the settlement it saw.
unfoldable pub check_current :
    (seen : LedgerDb) → Option (ℕ × BookingSettlement) → Option ℕ → Ledger (Unit {0})
check_current seen none none = pure tt
check_current seen (some _) none = raise already_settled
check_current seen none (some old) = raise must_supersede_current
check_current seen (some (id, _)) (some old) = do
  reject_if (not (id == old)) must_supersede_current
  reject_if (is_in_collection id seen) already_collected

-- The errors of the repository, as the service rethrows them.
abbrev pub rethrown : LedgerError → LedgerError
rethrown write_conflict = settlement_changed
rethrown unique_violation = settlement_changed
rethrown collected_conflict = already_collected
rethrown e = e

abbrev pub payment_key : BookingSettlement → PaymentKey
payment_key s = if ltb 0 s.money.shortfall then payment_short else payment_received

-- `wasAlreadyNotified`
unfoldable pub was_notified : (user booking : ℕ) → PaymentKey → List PaymentNotice → Bool
was_notified user booking key [] = false
was_notified user booking key (n ∷ ns) =
    let rest = was_notified user booking key ns in
    (n.user_id == user && n.booking_id == booking && same_key n.event_key key) || rest

abbrev pub notify : (user booking : ℕ) → PaymentKey → LedgerDb → LedgerDb
notify user booking key db = if was_notified user booking key db.notices then db else record db {
  notices = record { user_id = user; booking_id = booking; event_key = key } ∷ db.notices;
}

-- `notifyWorkerOfPayment`, where the worker is not the actor. Sending fails without an effect.
unfoldable pub notify_worker_of_payment :
    (actor booking : ℕ) → Option ℕ → BookingSettlement → LedgerDb → LedgerDb
unfolding was_notified
notify_worker_of_payment actor booking none settlement db = db
notify_worker_of_payment actor booking (some worker_user) settlement db =
    if actor == worker_user then db else notify worker_user booking (payment_key settlement) db

abbrev pub new_settlement :
    (now actor booking worker received : ℕ)
    → SettlementSource
    → Option ℕ
    → BookingSettlementCalculation
    → BookingSettlement
new_settlement now actor booking worker received source supersedes_id calculation = record {
  booking_id = booking;
  worker_profile_id = worker;
  supersedes_id = supersedes_id;
  is_current = true;
  received = received;
  source = source;
  money = calculation;
  settled_by_user_id = actor;
  settled_at = now;
}

-- `persistSettlement` from `settleBooking` on.
abbrev pub settle_expected :
    (now actor booking worker received : ℕ)
    → SettlementSource
    → (supersedes_id worker_user : Option ℕ) → ExpectedMoney
    → Ledger (ℕ × BookingSettlement)
settle_expected now actor booking worker received source supersedes_id worker_user expected = do
  calculation ← calculate expected received
  let row = new_settlement now actor booking worker received source supersedes_id calculation
  id ←
      catch_with (create_settlement now actor expected row (without_auto calculation.case_types))
        (λ e. raise (rethrown e))
  modify (notify_worker_of_payment actor booking worker_user row)
  pure (id, row)

-- `persistSettlement` on the booking that it read.
abbrev pub settle_read :
    (now actor : ℕ)
    → (seen : LedgerDb) → (booking received : ℕ) → SettlementSource
    → (supersedes_id : Option ℕ) → LedgerBooking
    → Ledger (ℕ × BookingSettlement)
settle_read now actor seen booking received source supersedes_id b = do
  reject_if (not (is_settleable b.status)) not_completed
  worker ← require b.worker_profile_id no_worker
  check_current seen (current_settlement booking seen) supersedes_id
  expected ←
      require (expected_money b.lane b.report b.inspection_fee_snapshot b.final_price)
        final_price_missing
  settle_expected now actor booking worker received source supersedes_id b.worker_user_id expected

-- `persistSettlement`
unfoldable pub persist_settlement :
    (now actor : ℕ)
    → (seen : LedgerDb) → (booking received : ℕ) → SettlementSource
    → (supersedes_id : Option ℕ) → Ledger (ℕ × BookingSettlement)
unfolding current_settlement check_current expected_money settle_booking without_auto
    create_settlement notify_worker_of_payment
persist_settlement now actor seen booking received source supersedes_id =
    require (seen.bookings booking) booking_not_found
    >>= settle_read now actor seen booking received source supersedes_id
