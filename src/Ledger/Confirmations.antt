-- ===== src/Ledger/Confirmations.antt =====
-- Clients and workers who send a payment again.
use easyrepair.Ledger.Settling.Payments.{
  resolve_client_confirmation_retry, resolve_ustaad_report_retry, report_ustaad_cash_payment,
  settle_once, confirm_client_cash_payment,
}
use easyrepair.Ledger.Writes.{current_settlement}
use easyrepair.Ledger.Idempotence.{
  settle_once-IsSettled, resolve_client-IsHonest, resolve_ustaad-IsHonest, client-Accepts,
  ustaad-Accepts,
}
use easyrepair.Prelude.{
  ℕ, ◌≡◌, refl, subst, ap, ◌∙◌, inl, inr, true, some, arith, ◌==◌, Bool-cases, Option-cases,
  holds_id, Table,
}
use easyrepair.Steps.{Answer, done}
use easyrepair.Ledger.State.{LedgerDb, LedgerError, SettlementSource, LedgerBooking}
use easyrepair.Ledger.Recording.Untouched.{SameRest, same_rest}
use easyrepair.Ledger.Recording.{Chosen, client-Kept, ustaad-Kept}

module _ (now later : ℕ) (seen_again seen_later db db' : LedgerDb) (booking received user : ℕ)
    (c : Chosen) where
  -- A client who confirms the same cash again gets the settlement of the first time, and the second
  -- confirmation changes nothing. What `persistSettlement` reads may in both be older than its
  -- transaction.
  pub confirm_twice :
      confirm_client_cash_payment now db seen_again booking received user db ≡ (done c, db')
      → confirm_client_cash_payment later db' seen_later booking received user db' ≡ (done c, db')
  unfolding confirm_client_cash_payment settle_once
  confirm_twice h = elim (Option-cases (db.bookings booking)) [
    | inl missing ↦ absurd (ground (arith, rw missing at h))
    | inr (b, found) ↦ elim (Bool-cases (b.client_user_id == user)) [
      | inl owner ↦ again b found owner (
          settle_once-IsSettled (resolve_client_confirmation_retry received user)
            (resolve_client-IsHonest received user) booking user received SettlementSource.client
            (client-Accepts booking user received) now seen_again b.status
            (current_settlement booking db) db db' c refl (rw (found, owner) at h))
      | inr other ↦ absurd (ground (arith, rw (found, other) at h))
    ]
  ]
    where
      same : SameRest db db'
      same =
          subst (λ (r : Answer LedgerError Chosen × LedgerDb). SameRest db r.1) h
            ((client-Kept (SameRest db) (same_rest db) now db seen_again booking received
                user).after
              db (refl, refl))

      again :
          (b : LedgerBooking)
          → db.bookings booking ≡ some b
          → (b.client_user_id == user) ≡ true
          → (current_settlement booking db' ≡ some c)
            × ((s : LedgerDb) → resolve_client_confirmation_retry received user c s ≡ (done c, s))
          → confirm_client_cash_payment later db' seen_later booking received user db'
            ≡ (done c, db')
      again b found owner settled =
          rw (ap (λ (t : Table LedgerBooking). t booking) same.0 ∙ found, owner, settled.0)
            (settled.1 db')

  -- A worker who reports the same cash again gets the settlement of the first time, and the second
  -- report changes nothing.
  pub report_twice :
      report_ustaad_cash_payment now db seen_again booking received user db ≡ (done c, db')
      → report_ustaad_cash_payment later db' seen_later booking received user db' ≡ (done c, db')
  unfolding report_ustaad_cash_payment settle_once
  report_twice h = elim (Option-cases (db.bookings booking)) [
    | inl missing ↦ absurd (ground (arith, rw missing at h))
    | inr (b, found) ↦ elim (Bool-cases (holds_id b.worker_user_id user)) [
      | inl own ↦ again b found own (
          settle_once-IsSettled (resolve_ustaad_report_retry received)
            (resolve_ustaad-IsHonest received) booking user received SettlementSource.ustaad
            (ustaad-Accepts booking user received) now seen_again b.status
            (current_settlement booking db) db db' c refl (rw (found, own) at h))
      | inr other ↦ absurd (ground (arith, rw (found, other) at h))
    ]
  ]
    where
      same : SameRest db db'
      same =
          subst (λ (r : Answer LedgerError Chosen × LedgerDb). SameRest db r.1) h
            ((ustaad-Kept (SameRest db) (same_rest db) now db seen_again booking received
                user).after
              db (refl, refl))

      again :
          (b : LedgerBooking)
          → db.bookings booking ≡ some b
          → holds_id b.worker_user_id user ≡ true
          → (current_settlement booking db' ≡ some c)
            × ((s : LedgerDb) → resolve_ustaad_report_retry received c s ≡ (done c, s))
          → report_ustaad_cash_payment later db' seen_later booking received user db'
            ≡ (done c, db')
      again b found own settled =
          rw (ap (λ (t : Table LedgerBooking). t booking) same.0 ∙ found, own, settled.0)
            (settled.1 db')
