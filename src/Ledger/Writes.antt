-- ===== src/Ledger/Writes.antt =====
-- The transaction of a settlement: `createSettlement` of
-- backend/src/modules/admin/admin-operations.repository.ts, with the unique indexes that it relies
-- on.
use easyrepair.Prelude.{
  ℕ, zero, suc, ◌+◌, ◌%◌, Bool, false, not, ◌&&◌, ◌||◌, Option, none, some, List, [], ◌∷◌, ◌++◌,
  map, ◌==◌, if◌then◌else◌, is_some, Table, put, update_many, find_first, is_row,
}
use easyrepair.Steps.{pure, reads, require, reject_if, modify, transact, ◌>>=◌, ◌>>◌}
use easyrepair.Commission.Settlement.{SettlementCaseType}
use easyrepair.Ledger.State.{
  SettlementCasePriority, SettlementCaseStatus, is_closed, SettlementCaseEventType,
  BookingSettlement, SettlementCase, CaseEvent, CollectionItem, CommissionCollection, LedgerDb,
  Ledger, write_conflict, collected_conflict, unique_violation, not_an_integer,
}

-- The settlement that is current for a booking.
unfoldable pub current_settlement : (booking : ℕ) → LedgerDb → Option (ℕ × BookingSettlement)
current_settlement booking db =
    find_first (λ i (s : BookingSettlement). s.booking_id == booking && s.is_current)
      db.next_settlement db.settlements

unfoldable pub has_item : (settlement : ℕ) → List CollectionItem → Bool
has_item settlement [] = false
has_item settlement (item ∷ items) =
    let rest = has_item settlement items in item.settlement_id == settlement || rest

-- `collectionItems.length > 0`
unfoldable pub is_in_collection : (settlement : ℕ) → LedgerDb → Bool
is_in_collection settlement db = is_some (
    find_first (λ i (c : CommissionCollection). has_item settlement c.items) db.next_collection
      db.collections)

-- `expectedMoney`, in hundredths.
pub record ExpectedMoney : Type 0 where
  pub quote_parts : ℕ
  pub quote_labour : ℕ
  pub inspection_fee : ℕ

-- `current.cases`, those that are not closed
unfoldable pub is_open_case : (settlement : ℕ) → SettlementCase → Bool
is_open_case settlement c = c.settlement_id == settlement && not (is_closed c.status)

-- The numbers of the rows below `n` that fit.
unfoldable pub rows_where : {A : Type 0} → (A → Bool) → ℕ → Table A → List ℕ
rows_where p zero t = []
rows_where p (suc n) t = let rest = rows_where p n t in if is_row p (t n) then n ∷ rest else rest

abbrev pub case_event : SettlementCaseEventType → (actor id : ℕ) → CaseEvent
case_event type actor id = record { case_id = id; event_type = type; actor_user_id = actor }

abbrev pub close_case : (now : ℕ) → SettlementCase → SettlementCase
close_case now c = record c { status = SettlementCaseStatus.closed; resolved_at = some now }

unfoldable pub close_cases : (now actor settlement : ℕ) → LedgerDb → LedgerDb
unfolding is_open_case
close_cases now actor settlement db = record db {
  cases = update_many (λ i. is_open_case settlement) (close_case now) db.cases;
  events =
      map (case_event SettlementCaseEventType.case_resolved actor)
        (rows_where (is_open_case settlement) db.next_case db.cases)
      ++ db.events;
}

-- `if (data.supersedesId)` of `createSettlement`
unfoldable pub supersede : (now actor booking : ℕ) → Option ℕ → Ledger (Unit {0})
supersede now actor booking none = pure tt
supersede now actor booking (some old) = do
  row ← require (← reads (λ (db : LedgerDb). db.settlements old)) write_conflict
  reject_if (not (row.booking_id == booking && row.is_current)) write_conflict
  reject_if (← reads (is_in_collection old)) collected_conflict
  modify (λ (db : LedgerDb). record db {
    settlements = put old (record row { is_current = false }) db.settlements;
  })
  modify (close_cases now actor old)

abbrev pub same_option : Option ℕ → Option ℕ → Bool
same_option (some a) (some b) = a == b
same_option _ _ = false

-- What the unique index on `supersedesId` and the partial one on the current row of a booking
-- refuse.
unfoldable pub is_taken : BookingSettlement → LedgerDb → Bool
unfolding current_settlement
is_taken row db =
    is_some (current_settlement row.booking_id db)
    || is_some (
        find_first (λ i (s : BookingSettlement). same_option s.supersedes_id row.supersedes_id)
          db.next_settlement db.settlements)

-- `bookingSettlement.create`, of a current row.
unfoldable pub create_row : BookingSettlement → Ledger ℕ
create_row row = do
  reject_if (← reads (is_taken row)) unique_violation
  id ← reads (λ (db : LedgerDb). db.next_settlement)
  modify (λ (db : LedgerDb). record db {
    settlements = put db.next_settlement row db.settlements;
    next_settlement = db.next_settlement + 1;
  })
  pure id

-- `for (const type of caseTypes)`
unfoldable pub open_cases :
    (actor booking settlement : ℕ) → List SettlementCaseType → LedgerDb → LedgerDb
open_cases actor booking settlement [] db = db
open_cases actor booking settlement (type ∷ types) db =
    open_cases actor booking settlement types (record db {
      cases =
          put db.next_case
            (record {
              booking_id = booking;
              settlement_id = settlement;
              case_type = type;
              status = SettlementCaseStatus.case_open;
              priority = SettlementCasePriority.normal;
              assigned_to_user_id = none;
              resolved_at = none;
            })
            db.cases;
      next_case = db.next_case + 1;
      events = case_event SettlementCaseEventType.created actor db.next_case ∷ db.events;
    })

-- Whether the amounts fit the integer columns that they are written to.
abbrev pub is_whole : ExpectedMoney → Bool
is_whole m = m.quote_parts % 100 == 0 && m.quote_labour % 100 == 0 && m.inspection_fee % 100 == 0

-- `createSettlement`
unfoldable pub create_settlement :
    (now actor : ℕ) → ExpectedMoney → BookingSettlement → List SettlementCaseType → Ledger ℕ
unfolding supersede create_row
create_settlement now actor expected row types = transact (do
  supersede now actor row.booking_id row.supersedes_id
  reject_if (not (is_whole expected)) not_an_integer
  id ← create_row row
  modify (open_cases actor row.booking_id id types)
  pure id)
