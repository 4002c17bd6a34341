-- ===== src/Ledger/Settling/Payments.antt =====
-- Who settles: `confirmClientCashPayment`, `reportUstaadCashPayment`, `createSettlement` and
-- `correctSettlement` of backend/src/modules/admin/admin-operations.service.ts. `seen` is what the
-- first read of a booking saw, and `seen_again` what the read of `persistSettlement` saw.
use easyrepair.Prelude.{ℕ, not, ◌&&◌, Option, none, some, ◌==◌, if◌then◌else◌, holds_id}
use easyrepair.Steps.{pure, raise, reads, require, reject_if, catch_with, ◌>>=◌, ◌>>◌}
use easyrepair.Schema.{BookingStatus, is_completed}
use easyrepair.Ledger.State.{
  SettlementSource, is_client_source, BookingSettlement, LedgerDb, LedgerError, Ledger,
  booking_not_found, not_completed, not_your_booking, correction_required, is_conflict,
}
use easyrepair.Ledger.Settling.{persist_settlement}
use easyrepair.Ledger.Writes.{current_settlement}

-- `resolveClientConfirmationRetry`
unfoldable pub resolve_client_confirmation_retry :
    (received client_user : ℕ) → (ℕ × BookingSettlement) → Ledger (ℕ × BookingSettlement)
resolve_client_confirmation_retry received client_user (id, s) = do
  reject_if
      (not (
        is_client_source s.source && s.settled_by_user_id == client_user && s.received == received))
      correction_required
  pure (id, s)

-- `resolveUstaadReportRetry`
unfoldable pub resolve_ustaad_report_retry :
    (received : ℕ) → (ℕ × BookingSettlement) → Ledger (ℕ × BookingSettlement)
resolve_ustaad_report_retry received (id, s) = do
  reject_if (not (s.received == received)) correction_required
  pure (id, s)

module _ (resolve : ℕ × BookingSettlement → Ledger (ℕ × BookingSettlement)) where
  abbrev pub resolve_winner :
      LedgerError → Option (ℕ × BookingSettlement) → Ledger (ℕ × BookingSettlement)
  resolve_winner e none = raise e
  resolve_winner e (some winner) = resolve winner

  -- `catch (error)`: the settlement that won, read again, if there is one.
  abbrev pub after_conflict : (booking : ℕ) → LedgerError → Ledger (ℕ × BookingSettlement)
  after_conflict booking e =
      if is_conflict e then (reads (current_settlement booking) >>= resolve_winner e) else raise e

  -- `if (current) return …`, or the settlement of a completed booking.
  unfoldable pub settle_once :
      (now actor : ℕ)
      → (seen_again : LedgerDb) → (booking received : ℕ) → SettlementSource
      → BookingStatus
      → Option (ℕ × BookingSettlement)
      → Ledger (ℕ × BookingSettlement)
  unfolding current_settlement persist_settlement
  settle_once now actor seen_again booking received source status (some current) = resolve current
  settle_once now actor seen_again booking received source status none = do
    reject_if (not (is_completed status)) not_completed
    catch_with (persist_settlement now actor seen_again booking received source none)
        (after_conflict booking)

-- `confirmClientCashPayment`
unfoldable pub confirm_client_cash_payment :
    (now : ℕ)
    → (seen seen_again : LedgerDb) → (booking received client_user : ℕ)
    → Ledger (ℕ × BookingSettlement)
unfolding resolve_client_confirmation_retry settle_once
confirm_client_cash_payment now seen seen_again booking received client_user = do
  b ← require (seen.bookings booking) booking_not_found
  reject_if (not (b.client_user_id == client_user)) not_your_booking
  settle_once (resolve_client_confirmation_retry received client_user) now client_user seen_again
      booking received SettlementSource.client b.status (current_settlement booking seen)

-- `reportUstaadCashPayment`
unfoldable pub report_ustaad_cash_payment :
    (now : ℕ)
    → (seen seen_again : LedgerDb) → (booking received worker_user : ℕ)
    → Ledger (ℕ × BookingSettlement)
unfolding resolve_ustaad_report_retry settle_once
report_ustaad_cash_payment now seen seen_again booking received worker_user = do
  b ← require (seen.bookings booking) booking_not_found
  reject_if (not (holds_id b.worker_user_id worker_user)) not_your_booking
  settle_once (resolve_ustaad_report_retry received) now worker_user seen_again booking received
      SettlementSource.ustaad b.status (current_settlement booking seen)

-- `createSettlement` and, with the settlement that it corrects, `correctSettlement`.
unfoldable pub settle_by_admin :
    (now admin : ℕ)
    → (seen : LedgerDb) → (booking received : ℕ) → SettlementSource
    → Option ℕ
    → Ledger (ℕ × BookingSettlement)
unfolding persist_settlement
settle_by_admin now admin seen booking received source supersedes_id =
    persist_settlement now admin seen booking received source supersedes_id
