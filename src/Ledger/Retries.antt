-- ===== src/Ledger/Retries.antt =====
-- A payment that is confirmed or reported again.
use easyrepair.Ledger.Settling.{
  rethrown, without_auto, new_settlement, notify_worker_of_payment, persist_settlement,
}
use easyrepair.Ledger.Writes.{
  is_taken, ExpectedMoney, open_cases, create_row, current_settlement, create_settlement,
}
use easyrepair.Prelude.{
  ℕ, ◌+◌, ◌≡◌, refl, inl, inr, true, ◌&&◌, Option, none, some, List, [], ◌∷◌, arith, ◌==◌,
  Bool-cases, Table, put, find_first,
}
use easyrepair.Commission.Settlement.{BookingSettlementCalculation, SettlementCaseType}
use easyrepair.Steps.Yields.{
  Yields, bind-Yields, sequence-Yields, raise-Yields, continued-Yields, handled-Yields,
  transact-Yields,
}
use easyrepair.Steps.{modify, pure, raise, catch_with, ◌>>=◌, ◌>>◌}
use easyrepair.Ledger.State.{Ledger, BookingSettlement, LedgerDb, SettlementSource}
use easyrepair.Ledger.Recording.{Chosen}

-- The settlement is the current one of its booking.
abbrev pub IsWritten : BookingSettlement → ℕ → LedgerDb → Type 0
IsWritten row id db = current_settlement row.booking_id db ≡ some (id, row)

current-new :
    (row : BookingSettlement) (next : ℕ) (t : Table BookingSettlement)
    → row.is_current ≡ true
    → find_first
        (λ i (s : BookingSettlement). s.booking_id == row.booking_id && s.is_current)
        (next + 1)
        (put next row t)
      ≡ some (next, row)
unfolding find_first
current-new row next t current = ground arith

create_row-IsWritten :
    (row : BookingSettlement) → row.is_current ≡ true → Yields (IsWritten row) (create_row row)
unfolding create_row current_settlement
create_row-IsWritten row current = record {
  on_done = λ s t id h. elim (Bool-cases (is_taken row s)) [
    | inl taken ↦ absurd (ground (arith, rw taken at h))
    | inr free ↦
        ground (arith, rw free at h, current-new row s.next_settlement s.settlements current)
  ];
}

current-open_cases :
    (b actor booking settlement : ℕ) (types : List SettlementCaseType) (db : LedgerDb)
    → current_settlement b (open_cases actor booking settlement types db) ≡ current_settlement b db
unfolding open_cases current_settlement
current-open_cases b actor booking settlement [] db = refl
current-open_cases b actor booking settlement (type ∷ types) db =
    current-open_cases b actor booking settlement types _

-- `create` and the loop over the case types
abbrev with_cases : (actor : ℕ) → BookingSettlement → List SettlementCaseType → Ledger ℕ
with_cases actor row types = do
  id ← create_row row
  modify (open_cases actor row.booking_id id types)
  pure id

with_cases-IsWritten :
    (actor : ℕ) (row : BookingSettlement) (types : List SettlementCaseType)
    → row.is_current ≡ true
    → Yields (IsWritten row) (with_cases actor row types)
with_cases-IsWritten actor row types current =
    continued-Yields (IsWritten row) (IsWritten row) (create_row row)
      (λ id. modify (open_cases actor row.booking_id id types) >> pure id)
      (create_row-IsWritten row current)
      λ id s t a written h.
        ground (arith, current-open_cases row.booking_id actor row.booking_id id types s)

create-IsWritten :
    (now actor : ℕ) (expected : ExpectedMoney) (row : BookingSettlement)
    (types : List SettlementCaseType)
    → row.is_current ≡ true
    → Yields (IsWritten row) (create_settlement now actor expected row types)
unfolding create_settlement
create-IsWritten now actor expected row types current =
    search (transact-Yields, sequence-Yields, with_cases-IsWritten)

-- The answer is the current settlement of the booking, with what the request says of it.
abbrev pub IsRecorded : (booking actor received : ℕ) → SettlementSource → Chosen → LedgerDb → Type 0
IsRecorded booking actor received source (id, row) db =
    (current_settlement booking db ≡ some (id, row))
    × (row.settled_by_user_id ≡ actor)
    × (row.received ≡ received)
    × (row.source ≡ source)

current-notify :
    (b actor booking : ℕ) (worker : Option ℕ) (s : BookingSettlement) (db : LedgerDb)
    → current_settlement b (notify_worker_of_payment actor booking worker s db)
      ≡ current_settlement b db
unfolding notify_worker_of_payment current_settlement
current-notify b actor booking none s db = refl
current-notify b actor booking (some user) s db = ground arith

-- The creation, the notice and the answer of `persistSettlement`.
abbrev recorded :
    (now actor booking : ℕ)
    → ExpectedMoney
    → Option ℕ
    → BookingSettlement
    → List SettlementCaseType
    → Ledger Chosen
recorded now actor booking expected worker row types = do
  id ← catch_with (create_settlement now actor expected row types) (λ e. raise (rethrown e))
  modify (notify_worker_of_payment actor booking worker row)
  pure (id, row)

recorded-IsRecorded :
    (now actor booking : ℕ) (expected : ExpectedMoney) (worker : Option ℕ) (row : BookingSettlement)
    (types : List SettlementCaseType)
    → row.is_current ≡ true
    → row.booking_id ≡ booking
    → Yields
        (IsRecorded booking row.settled_by_user_id row.received row.source)
        (recorded now actor booking expected worker row types)
recorded-IsRecorded now actor booking expected worker row types current own =
    continued-Yields _ (IsWritten row)
      (catch_with (create_settlement now actor expected row types) (λ e. raise (rethrown e)))
      (λ id. modify (notify_worker_of_payment actor booking worker row) >> pure (id, row))
      (handled-Yields (IsWritten row) (create-IsWritten now actor expected row types current)
        (λ e. raise-Yields (IsWritten row) (rethrown e)))
      λ id s t a written h. ground (arith, current-notify booking actor booking worker row s)

pub persist-IsRecorded :
    (now actor : ℕ) (seen : LedgerDb) (booking received : ℕ) (source : SettlementSource)
    (supersedes : Option ℕ)
    → Yields
        (IsRecorded booking actor received source)
        (persist_settlement now actor seen booking received source supersedes)
unfolding persist_settlement
persist-IsRecorded now actor seen booking received source supersedes =
    search
      (
        bind-Yields,
        sequence-Yields,
        λ (worker : ℕ) (c : BookingSettlementCalculation) (expected : ExpectedMoney)
              (user : Option ℕ).
            recorded-IsRecorded now actor booking expected user
              (new_settlement now actor booking worker received source supersedes c)
              (without_auto c.case_types) refl refl,
      )
      depth 16
