-- ===== src/Ledger/Recording/Untouched.antt =====
-- What a settlement leaves alone.
use easyrepair.Ledger.Settling.{notify_worker_of_payment}
use easyrepair.Ledger.Writes.{close_cases, create_row, supersede, open_cases}
use easyrepair.Prelude.{ℕ, ◌≡◌, Option, none, some, List, [], ◌∷◌, arith}
use easyrepair.Commission.Settlement.{SettlementCaseType}
use easyrepair.Steps.Keeps.{Keeps, modify-Keeps, pure-Keeps}
use easyrepair.Ledger.State.{BookingSettlement, LedgerDb}
use easyrepair.Ledger.Recording.{IsKeptByWrites}

-- The bookings and the collections stay as they are in `was`.
abbrev pub SameRest : LedgerDb → LedgerDb → Type 0
SameRest was db = (db.bookings ≡ was.bookings) × (db.collections ≡ was.collections)

supersede-SameRest :
    (was : LedgerDb) (now actor booking : ℕ) (old : Option ℕ)
    → Keeps (SameRest was) (supersede now actor booking old)
unfolding supersede close_cases
supersede-SameRest was now actor booking none = pure-Keeps (SameRest was) tt
supersede-SameRest was now actor booking (some old) = record { after = λ db h. ground arith }

create_row-SameRest :
    (was : LedgerDb) (row : BookingSettlement) → Keeps (SameRest was) (create_row row)
unfolding create_row
create_row-SameRest was row = record { after = λ db h. ground arith }

open_cases-SameRest :
    (was : LedgerDb) (actor booking settlement : ℕ) (types : List SettlementCaseType)
    (db : LedgerDb)
    → SameRest was db
    → SameRest was (open_cases actor booking settlement types db)
unfolding open_cases
open_cases-SameRest was actor booking settlement [] db h = h
open_cases-SameRest was actor booking settlement (type ∷ types) db h =
    open_cases-SameRest was actor booking settlement types _ h

notify-SameRest :
    (was : LedgerDb) (actor booking : ℕ) (worker : Option ℕ) (s : BookingSettlement) (db : LedgerDb)
    → SameRest was db
    → SameRest was (notify_worker_of_payment actor booking worker s db)
unfolding notify_worker_of_payment
notify-SameRest was actor booking none s db h = h
notify-SameRest was actor booking (some user) s db h = ground arith

pub same_rest : (was : LedgerDb) → IsKeptByWrites (SameRest was)
same_rest was = record {
  supersedes = supersede-SameRest was;
  creates = create_row-SameRest was;
  opens = λ actor booking settlement types.
      modify-Keeps (SameRest was) _ (open_cases-SameRest was actor booking settlement types);
  notifies = λ actor booking worker s.
      modify-Keeps (SameRest was) _ (notify-SameRest was actor booking worker s);
}
