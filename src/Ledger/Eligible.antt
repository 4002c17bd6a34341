-- ===== src/Ledger/Eligible.antt =====
-- Which settlements a nightly collection takes: `findEligibleSettlements` and the query that
-- revalidates a worker's candidates in `createNightlyCollections` of
-- backend/src/modules/admin/admin-operations.repository.ts, and how `runNightly` of
-- admin-operations.service.ts groups them by worker.
use easyrepair.Prelude.{
  ℕ, zero, suc, Bool, true, false, not, ◌&&◌, ◌||◌, Option, none, some, List, [], ◌∷◌, ◌++◌, map,
  ltb, ◌==◌, if◌then◌else◌, is_some, holds_id, Table, find_first, is_row,
}
use easyrepair.Schema.{BookingStatus}
use easyrepair.Ledger.State.{
  LedgerBooking, BookingSettlement, CollectionItem, CommissionCollection, is_collected,
  is_pending_collection, LedgerDb,
}
use easyrepair.Ledger.Writes.{has_item}

-- `status IN ('PENDING', 'COLLECTED')`
abbrev pub is_live : CommissionCollection → Bool
is_live c = is_pending_collection c.status || is_collected c.status

-- Whether an item of the settlement stands in a collection that is pending or collected.
unfoldable pub is_in_live_collection : (settlement : ℕ) → LedgerDb → Bool
is_in_live_collection settlement db = is_some (
    find_first (λ i (c : CommissionCollection). is_live c && has_item settlement c.items)
      db.next_collection db.collections)

-- Whether a settlement supersedes it.
unfoldable pub is_replaced : (settlement : ℕ) → LedgerDb → Bool
is_replaced settlement db = is_some (
    find_first (λ i (s : BookingSettlement). holds_id s.supersedes_id settlement) db.next_settlement
      db.settlements)

-- `COMPLETED` or `SETTLED`, with the commission unpaid.
abbrev pub is_done : BookingStatus → Bool
is_done BookingStatus.completed = true
is_done BookingStatus.settled = true
is_done _ = false

abbrev pub is_payable : LedgerBooking → Bool
is_payable b = is_done b.status && not b.commission_paid

-- The `where` of `findEligibleSettlements`.
unfoldable pub is_eligible : LedgerDb → (id : ℕ) → BookingSettlement → Bool
unfolding is_replaced is_in_live_collection
is_eligible db id s =
    not (is_replaced id db)
    && (ltb 0 s.money.commission
        && (is_row is_payable (db.bookings s.booking_id) && not (is_in_live_collection id db)))

abbrev pub one_if :
    (ℕ → BookingSettlement → Bool) → ℕ → Option BookingSettlement → List (ℕ × BookingSettlement)
one_if p id none = []
one_if p id (some s) = if p id s then (id, s) ∷ [] else []

-- The settlements below `n` that fit, oldest first.
unfoldable pub settlements_where :
    (ℕ → BookingSettlement → Bool) → ℕ → Table BookingSettlement → List (ℕ × BookingSettlement)
settlements_where p zero t = []
settlements_where p (suc n) t = settlements_where p n t ++ one_if p n (t n)

unfoldable pub find_eligible_settlements : LedgerDb → List (ℕ × BookingSettlement)
unfolding is_eligible settlements_where
find_eligible_settlements db = settlements_where (is_eligible db) db.next_settlement db.settlements

abbrev pub item_of : ℕ × BookingSettlement → CollectionItem
item_of (id, s) = record { settlement_id = id; amount = s.money.commission }

-- `groups.get(worker) ?? []` with the new item, `groups.set`
unfoldable pub add_to_group :
    (worker : ℕ) → CollectionItem → List (ℕ × List CollectionItem) → List (ℕ × List CollectionItem)
add_to_group worker item [] = (worker, item ∷ []) ∷ []
add_to_group worker item ((other, items) ∷ groups) =
    let rest = add_to_group worker item groups in
    if other == worker then (other, items ++ (item ∷ [])) ∷ groups else (other, items) ∷ rest

-- The loop over the eligible settlements, with the groups so far.
unfoldable pub group_by_worker :
    List (ℕ × BookingSettlement) → List (ℕ × List CollectionItem) → List (ℕ × List CollectionItem)
unfolding add_to_group
group_by_worker [] groups = groups
group_by_worker ((id, s) ∷ eligible) groups =
    group_by_worker eligible (add_to_group s.worker_profile_id (item_of (id, s)) groups)

-- The `WHERE` of the query that revalidates the candidates of a worker.
unfoldable pub is_lockable :
    LedgerDb → (worker : ℕ) → List CollectionItem → (id : ℕ) → BookingSettlement → Bool
unfolding is_eligible has_item
is_lockable db worker items id s =
    has_item id items && (s.worker_profile_id == worker && (s.is_current && is_eligible db id s))

unfoldable pub locked_items : LedgerDb → (worker : ℕ) → List CollectionItem → List CollectionItem
unfolding is_lockable settlements_where
locked_items db worker items =
    map item_of (settlements_where (is_lockable db worker items) db.next_settlement db.settlements)
