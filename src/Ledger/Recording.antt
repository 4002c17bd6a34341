-- ===== src/Ledger/Recording.antt =====
-- That the requests that record a settlement keep what their writes keep.
pub mod Untouched
use easyrepair.Ledger.Settling.Payments.{
  after_conflict, resolve_ustaad_report_retry, resolve_winner, resolve_client_confirmation_retry,
  confirm_client_cash_payment, report_ustaad_cash_payment, settle_once,
}
use easyrepair.Ledger.Settling.{
  calculate, check_current, persist_settlement, notify_worker_of_payment,
}
use easyrepair.Prelude.{
  ℕ, zero, suc, ℤ, ◌+◌, ◌-◌, ◌*◌, ◌/◌, ◌%◌, ◌≤◌, ◌<◌, min, max, ◌≡◌, ◌≢◌, ◌↔◌, ◌⊎◌, refl, sym,
  subst, ap, ◌∙◌, inl, inr, Bool, true, false, not, ◌&&◌, ◌||◌, Option, none, some, List, [], ◌∷◌,
  ◌++◌, map, arith, ltb, leb, ◌==◌, if◌then◌else◌, Bool-cases, Option-cases, is_some, or_else,
  or_other, holds_id, Table, put, revise, update_many, find_first, find_first-some, find_first-none,
  find_first-put, find_first-new, ==_iff, put_rule, is_row,
}
use easyrepair.Commission.Settlement.{SettlementCaseType}
use easyrepair.Schema.{BookingStatus}
use easyrepair.Ledger.State.{
  must_supersede_current, already_settled, is_conflict, BookingSettlement, LedgerDb, LedgerError,
  Ledger, SettlementSource,
}
use easyrepair.Steps.Keeps.{
  pure-Keeps, reads-Keeps, raise-Keeps, keeping, Keeps, bind-Keeps, sequence-Keeps, reject-Keeps,
  handled-Keeps,
}
use easyrepair.Ledger.Writes.{ExpectedMoney, create_settlement, open_cases, supersede, create_row}
use easyrepair.Steps.{modify}

-- A property of the state that the writes of a settlement keep.
pub record IsKeptByWrites (P : LedgerDb → Type 0) : Type 0 where
  pub supersedes :
      (now actor booking : ℕ) (old : Option ℕ) → Keeps P (supersede now actor booking old)
  pub creates : (row : BookingSettlement) → Keeps P (create_row row)
  pub opens :
      (actor booking settlement : ℕ) (types : List SettlementCaseType)
      → Keeps P (modify {E = LedgerError} (open_cases actor booking settlement types))
  pub notifies :
      (actor booking : ℕ) (worker : Option ℕ) (s : BookingSettlement)
      → Keeps P (modify {E = LedgerError} (notify_worker_of_payment actor booking worker s))

abbrev pub Chosen : Type 0
Chosen = ℕ × BookingSettlement

module _ (P : LedgerDb → Type 0) (w : IsKeptByWrites P) where
  -- A request that keeps it.
  abbrev pub Kept : {A : Type 0} → Ledger A → Type 0
  Kept = Keeps P

  create-Kept :
      (now actor : ℕ) (expected : ExpectedMoney) (row : BookingSettlement)
      (types : List SettlementCaseType)
      → Kept (create_settlement now actor expected row types)
  unfolding create_settlement
  create-Kept now actor expected row types =
      search (keeping, w.supersedes, w.creates, w.opens actor row.booking_id) depth 16

  check_current-Kept :
      (seen : LedgerDb) (current : Option (ℕ × BookingSettlement)) (supersedes : Option ℕ)
      → Kept (check_current seen current supersedes)
  unfolding check_current
  check_current-Kept seen none none = pure-Keeps P tt
  check_current-Kept seen (some _) none = raise-Keeps P already_settled
  check_current-Kept seen none (some old) = raise-Keeps P must_supersede_current
  check_current-Kept seen (some (id, _)) (some old) = search keeping

  calculate-Kept : (expected : ExpectedMoney) (received : ℕ) → Kept (calculate expected received)
  calculate-Kept expected received = record { after = λ db h. ground arith }

  pub persist-Kept :
      (now actor : ℕ) (seen : LedgerDb) (booking received : ℕ) (source : SettlementSource)
      (supersedes : Option ℕ)
      → Kept (persist_settlement now actor seen booking received source supersedes)
  unfolding persist_settlement
  persist-Kept now actor seen booking received source supersedes =
      search (keeping, check_current-Kept, calculate-Kept, create-Kept, w.notifies actor booking)
        depth 16

  module _ (resolve : Chosen → Ledger Chosen) (kept : (c : Chosen) → Kept (resolve c)) where
    winner-Kept : (e : LedgerError) (o : Option Chosen) → Kept (resolve_winner resolve e o)
    winner-Kept e none = raise-Keeps P e
    winner-Kept e (some c) = kept c

    conflict-Kept : (booking : ℕ) (e : LedgerError) → Kept (after_conflict resolve booking e)
    conflict-Kept booking e = elim (Bool-cases (is_conflict e)) [
      | inl conflict ↦ rw conflict (bind-Keeps P (reads-Keeps P _) (winner-Kept e))
      | inr other ↦ rw other (raise-Keeps P e)
    ]

    settle_once-Kept :
        (now actor : ℕ) (seen : LedgerDb) (booking received : ℕ) (source : SettlementSource)
        (status : BookingStatus) (current : Option Chosen)
        → Kept (settle_once resolve now actor seen booking received source status current)
    unfolding settle_once
    settle_once-Kept now actor seen booking received source status (some c) = kept c
    settle_once-Kept now actor seen booking received source status none =
        sequence-Keeps P (reject-Keeps P _ _) λ _.
          handled-Keeps P (persist-Kept now actor seen booking received source none)
            (conflict-Kept booking)

  resolve_client-Kept :
      (received user : ℕ) (c : Chosen) → Kept (resolve_client_confirmation_retry received user c)
  unfolding resolve_client_confirmation_retry
  resolve_client-Kept received user (id, s) = search keeping

  resolve_ustaad-Kept : (received : ℕ) (c : Chosen) → Kept (resolve_ustaad_report_retry received c)
  unfolding resolve_ustaad_report_retry
  resolve_ustaad-Kept received (id, s) = search keeping

  pub client-Kept :
      (now : ℕ) (seen seen_again : LedgerDb) (booking received user : ℕ)
      → Kept (confirm_client_cash_payment now seen seen_again booking received user)
  unfolding confirm_client_cash_payment
  client-Kept now seen seen_again booking received user =
      search (keeping, settle_once-Kept, resolve_client-Kept)

  pub ustaad-Kept :
      (now : ℕ) (seen seen_again : LedgerDb) (booking received user : ℕ)
      → Kept (report_ustaad_cash_payment now seen seen_again booking received user)
  unfolding report_ustaad_cash_payment
  ustaad-Kept now seen seen_again booking received user =
      search (keeping, settle_once-Kept, resolve_ustaad-Kept)
