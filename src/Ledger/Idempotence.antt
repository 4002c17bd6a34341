-- ===== src/Ledger/Idempotence.antt =====
-- A payment that is confirmed or reported a second time gets the first one's answer and writes
-- nothing.
use easyrepair.Schema.{is_completed, BookingStatus}
use easyrepair.Ledger.Settling.{persist_settlement}
use easyrepair.Ledger.Writes.{current_settlement}
use easyrepair.Ledger.Settling.Payments.{
  resolve_winner, resolve_ustaad_report_retry, resolve_client_confirmation_retry, settle_once,
  after_conflict,
}
use easyrepair.Prelude.{
  ℕ, ◌≡◌, refl, ap, inl, inr, not, ◌&&◌, Option, none, some, arith, ◌==◌, Bool-cases,
}
use easyrepair.Steps.{done, reject_if, catch_with}
use easyrepair.Steps.Yields.{Yields, sequence-Yields, handled-Yields}
use easyrepair.Ledger.State.{
  not_completed, is_conflict, LedgerDb, LedgerError, Ledger, SettlementSource, is_client_source,
}
use easyrepair.Ledger.Recording.{Chosen}
use easyrepair.Ledger.Retries.{IsRecorded, persist-IsRecorded}

module _ (resolve : Chosen → Ledger Chosen) where
  -- What is found again is answered as it is.
  abbrev pub Accepts : Chosen → Type 0
  Accepts c = (s : LedgerDb) → resolve c s ≡ (done c, s)

  -- The answer is the current settlement, and is given again.
  abbrev pub IsSettled : (booking : ℕ) → Chosen → LedgerDb → Type 0
  IsSettled booking c t = (current_settlement booking t ≡ some c) × Accepts c

  abbrev pub IsHonest : Type 0
  IsHonest =
      (c₀ c : Chosen) (s t : LedgerDb) → resolve c₀ s ≡ (done c, t) → (c₀ ≡ c) × (s ≡ t) × Accepts c

  module _ (honest : IsHonest) (booking : ℕ) where
    winner-IsSettled :
        (e : LedgerError) (o : Option Chosen) (s t : LedgerDb) (c : Chosen)
        → current_settlement booking s ≡ o
        → resolve_winner resolve e o s ≡ (done c, t)
        → IsSettled booking c t
    winner-IsSettled e none s t c o h = absurd (ground arith)
    winner-IsSettled e (some c₀) s t c o h =
        (rw (← (honest c₀ c s t h).1, o) (ap some (honest c₀ c s t h).0), (honest c₀ c s t h).2)

    conflict-IsSettled :
        (e : LedgerError) → Yields (IsSettled booking) (after_conflict resolve booking e)
    conflict-IsSettled e = record {
      on_done = λ s t c h. elim (Bool-cases (is_conflict e)) [
        | inl conflict ↦
            winner-IsSettled e (current_settlement booking s) s t c refl (rw conflict at h)
        | inr other ↦ absurd (ground (arith, rw other at h))
      ];
    }

    module _ (actor received : ℕ) (source : SettlementSource)
        (accepted : (c : Chosen) (t : LedgerDb)
          → IsRecorded booking actor received source c t
          → Accepts c) where
      pub settle_once-IsSettled :
          (now : ℕ) (seen_again : LedgerDb) (status : BookingStatus) (o : Option Chosen)
          (s t : LedgerDb) (c : Chosen)
          → current_settlement booking s ≡ o
          → settle_once resolve now actor seen_again booking received source status o s
            ≡ (done c, t)
          → IsSettled booking c t
      unfolding settle_once
      settle_once-IsSettled now seen_again status (some c₀) s t c o h =
          (rw (← (honest c₀ c s t h).1, o) (ap some (honest c₀ c s t h).0), (honest c₀ c s t h).2)
      settle_once-IsSettled now seen_again status none s t c o h =
          (sequence-Yields (IsSettled booking) (reject_if (not (is_completed status)) not_completed)
              (catch_with (persist_settlement now actor seen_again booking received source none)
                (after_conflict resolve booking))
              (handled-Yields (IsSettled booking)
                (record {
                  on_done = λ s t c h. ((recorded s t c h).0, accepted c t (recorded s t c h));
                })
                conflict-IsSettled)).on_done
            s t c h
        where
          recorded :
              (s t : LedgerDb) (c : Chosen)
              → persist_settlement now actor seen_again booking received source none s ≡ (done c, t)
              → IsRecorded booking actor received source c t
          recorded = (persist-IsRecorded now actor seen_again booking received source none).on_done

pub resolve_client-IsHonest :
    (received user : ℕ) → IsHonest (resolve_client_confirmation_retry received user)
unfolding resolve_client_confirmation_retry
resolve_client-IsHonest received user (id, row) c s t h =
    elim (Bool-cases
      (is_client_source row.source && row.settled_by_user_id == user && row.received == received)) [
        | inl fits ↦ ground (arith, rw fits at h)
        | inr differs ↦ absurd (ground (arith, rw differs at h))
      ]

pub resolve_ustaad-IsHonest : (received : ℕ) → IsHonest (resolve_ustaad_report_retry received)
unfolding resolve_ustaad_report_retry
resolve_ustaad-IsHonest received (id, row) c s t h = elim (Bool-cases (row.received == received)) [
  | inl fits ↦ ground (arith, rw fits at h)
  | inr differs ↦ absurd (ground (arith, rw differs at h))
]

pub client-Accepts :
    (booking user received : ℕ) (c : Chosen) (t : LedgerDb)
    → IsRecorded booking user received SettlementSource.client c t
    → Accepts (resolve_client_confirmation_retry received user) c
unfolding resolve_client_confirmation_retry
client-Accepts booking user received (id, row) t h s = ground arith

pub ustaad-Accepts :
    (booking user received : ℕ) (c : Chosen) (t : LedgerDb)
    → IsRecorded booking user received SettlementSource.ustaad c t
    → Accepts (resolve_ustaad_report_retry received) c
unfolding resolve_ustaad_report_retry
ustaad-Accepts booking user received (id, row) t h s = ground arith
