-- ===== src/Ledger/Balance/Writes.antt =====
-- The writes of a settlement keep the invariant.
use easyrepair.Ledger.Settling.{notify_worker_of_payment}
use easyrepair.Prelude.{
  ℕ, inl, inr, ◌&&◌, Option, none, some, List, [], ◌∷◌, arith, ◌==◌, Bool-cases, Option-cases,
}
use easyrepair.Commission.Settlement.{SettlementCaseType}
use easyrepair.Steps.Keeps.{pure-Keeps, modify-Keeps, Keeps}
use easyrepair.Ledger.State.{BookingSettlement, LedgerDb, LedgerError}
use easyrepair.Ledger.Writes.{
  close_cases, open_cases, supersede, create_row, is_in_collection, is_taken,
}
use easyrepair.Ledger.Balance.{IsBalanced, uncurrent-IsBalanced, create-IsBalanced}
use easyrepair.Steps.{modify}
use easyrepair.Ledger.Recording.{IsKeptByWrites}

supersede-Kept :
    (now actor booking : ℕ) (old : Option ℕ) → Keeps IsBalanced (supersede now actor booking old)
unfolding supersede close_cases
supersede-Kept now actor booking none = pure-Keeps IsBalanced tt
supersede-Kept now actor booking (some old) = record {
  after = λ db h. elim (Option-cases (db.settlements old)) [
    | inl missing ↦ rw missing h
    | inr (row, found) ↦ rw found (elim (Bool-cases (row.booking_id == booking && row.is_current)) [
      | inl right ↦ rw right (elim (Bool-cases (is_in_collection old db)) [
        | inl taken ↦ rw taken h
        | inr free ↦ rw free (uncurrent-IsBalanced old row db found free h)
      ])
      | inr wrong ↦ rw wrong h
    ])
  ];
}

create_row-Kept : (row : BookingSettlement) → Keeps IsBalanced (create_row row)
unfolding create_row
create_row-Kept row = record {
  after = λ db h. elim (Bool-cases (is_taken row db)) [
    | inl taken ↦ rw taken h
    | inr free ↦ rw free (create-IsBalanced row db free h)
  ];
}

open_cases-IsBalanced :
    (actor booking settlement : ℕ) (types : List SettlementCaseType) (db : LedgerDb)
    → IsBalanced db
    → IsBalanced (open_cases actor booking settlement types db)
unfolding open_cases
open_cases-IsBalanced actor booking settlement [] db h = h
open_cases-IsBalanced actor booking settlement (type ∷ types) db h =
    open_cases-IsBalanced actor booking settlement types _ h

open_cases-Kept :
    (actor booking settlement : ℕ) (types : List SettlementCaseType)
    → Keeps IsBalanced (modify {E = LedgerError} (open_cases actor booking settlement types))
open_cases-Kept actor booking settlement types =
    modify-Keeps IsBalanced _ (open_cases-IsBalanced actor booking settlement types)

notify-IsBalanced :
    (actor booking : ℕ) (worker : Option ℕ) (s : BookingSettlement) (db : LedgerDb)
    → IsBalanced db
    → IsBalanced (notify_worker_of_payment actor booking worker s db)
unfolding notify_worker_of_payment
notify-IsBalanced actor booking none s db h = h
notify-IsBalanced actor booking (some user) s db h = ground arith

notify-Kept :
    (actor booking : ℕ) (worker : Option ℕ) (s : BookingSettlement)
    → Keeps IsBalanced (modify {E = LedgerError} (notify_worker_of_payment actor booking worker s))
notify-Kept actor booking worker s =
    modify-Keeps IsBalanced _ (notify-IsBalanced actor booking worker s)

pub balance_of_writes : IsKeptByWrites IsBalanced
balance_of_writes = record {
  supersedes = supersede-Kept;
  creates = create_row-Kept;
  opens = open_cases-Kept;
  notifies = notify-Kept;
}
