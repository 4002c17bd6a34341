-- ===== src/Ledger/Collecting.antt =====
-- The nightly collections of commission: `runNightly` and `updateCollection` of
-- backend/src/modules/admin/admin-operations.service.ts with `createNightlyCollections` and
-- `updateCollection` of admin-operations.repository.ts. `seen` is the
-- state when the candidates were read. The reason of a failure is kept as whether there is one.
use easyrepair.Ledger.Eligible.{group_by_worker, locked_items, find_eligible_settlements}
use easyrepair.Prelude.{
  ℕ, zero, suc, ◌+◌, Bool, true, false, not, ◌&&◌, ◌||◌, Option, none, some, List, [], ◌∷◌, ◌++◌,
  ◌==◌, if◌then◌else◌, is_some, Table, put, update_many, find_first, is_row,
}
use easyrepair.Steps.{pure, raise, reads, require, reject_if, done, ◌>>=◌, ◌>>◌}
use easyrepair.Ledger.State.{
  LedgerBooking, BookingSettlement, CollectionItem, CommissionCollection,
  CommissionCollectionStatus, is_collected, is_failed, is_pending_collection,
  same_collection_status, LedgerDb, Ledger, collected_immutable, collection_not_found,
  failure_reason_required, back_to_pending,
}

unfoldable pub total_of : List CollectionItem → ℕ
total_of [] = 0
total_of (item ∷ items) = item.amount + total_of items

abbrev pub is_of_day : (worker date : ℕ) → CommissionCollection → Bool
is_of_day worker date c = c.worker_profile_id == worker && c.collection_date == date

abbrev pub new_collection :
    (worker date : ℕ) → (actor : Option ℕ) → List CollectionItem → CommissionCollection
new_collection worker date actor items = record {
  worker_profile_id = worker;
  collection_date = date;
  amount = total_of items;
  status = CommissionCollectionStatus.pending;
  automated = not (is_some actor);
  collected_at = none;
  items = items;
}

abbrev pub add_collection : CommissionCollection → LedgerDb → LedgerDb
add_collection c db = record db {
  collections = put db.next_collection c db.collections;
  next_collection = db.next_collection + 1;
}

-- `upsert` with `update: {}`: the row that stands for the worker and the date, or the new one.
abbrev pub upsert :
    Option (ℕ × CommissionCollection)
    → CommissionCollection
    → LedgerDb
    → (ℕ × CommissionCollection) × LedgerDb
upsert (some standing) c db = (standing, db)
upsert none c db = ((db.next_collection, c), add_collection c db)

module _ (date : ℕ) (actor : Option ℕ) where
  abbrev pub upsert_day :
      (worker : ℕ) → List CollectionItem → LedgerDb → (ℕ × CommissionCollection) × LedgerDb
  upsert_day worker items db =
      upsert (find_first (λ i. is_of_day worker date) db.next_collection db.collections)
        (new_collection worker date actor items) db

  -- `if (eligible.length === 0) continue`, or the collection of the locked rows.
  unfoldable pub collect_locked :
      (worker : ℕ) → List CollectionItem → LedgerDb → List (ℕ × CommissionCollection) × LedgerDb
  unfolding total_of
  collect_locked worker [] db = ([], db)
  collect_locked worker (item ∷ items) db =
      let (c, db') = upsert_day worker (item ∷ items) db in (c ∷ [], db')

  -- `createNightlyCollections`; no group is empty.
  unfoldable pub create_nightly_collections :
      List (ℕ × List CollectionItem) → LedgerDb → List (ℕ × CommissionCollection) × LedgerDb
  unfolding collect_locked locked_items
  create_nightly_collections [] db = ([], db)
  create_nightly_collections ((worker, items) ∷ groups) db =
      let (created, db') = collect_locked worker (locked_items db worker items) db in
      let (rest, db'') = create_nightly_collections groups db' in (created ++ rest, db'')

-- `byId.set`
unfoldable pub set_by_id :
    ℕ × CommissionCollection → List (ℕ × CommissionCollection) → List (ℕ × CommissionCollection)
set_by_id c [] = c ∷ []
set_by_id c (d ∷ ds) = let rest = set_by_id c ds in if d.0 == c.0 then c ∷ ds else d ∷ rest

unfoldable pub set_all :
    List (ℕ × CommissionCollection)
    → List (ℕ × CommissionCollection)
    → List (ℕ × CommissionCollection)
unfolding set_by_id
set_all [] by_id = by_id
set_all (c ∷ cs) by_id = set_all cs (set_by_id c by_id)

abbrev pub one_of_day :
    (date id : ℕ) → Option CommissionCollection → List (ℕ × CommissionCollection)
one_of_day date id none = []
one_of_day date id (some c) = if c.collection_date == date then (id, c) ∷ [] else []

-- `findCollectionsForDate`, of the collections below `n`
unfoldable pub collections_for_date :
    (date n : ℕ) → Table CommissionCollection → List (ℕ × CommissionCollection)
collections_for_date date zero t = []
collections_for_date date (suc n) t = collections_for_date date n t ++ one_of_day date n (t n)

unfoldable pub total_amount : List (ℕ × CommissionCollection) → ℕ
total_amount [] = 0
total_amount (c ∷ cs) = c.1.amount + total_amount cs

unfoldable pub count : List (ℕ × CommissionCollection) → ℕ
count [] = 0
count (c ∷ cs) = suc (count cs)

pub record NightlyRun : Type 0 where
  pub collection_date : ℕ
  pub worker_count : ℕ
  pub total_collected : ℕ
  pub collections : List (ℕ × CommissionCollection)

abbrev pub report_of : (date : ℕ) → List (ℕ × CommissionCollection) → NightlyRun
report_of date collections = record {
  collection_date = date;
  worker_count = count collections;
  total_collected = total_amount collections;
  collections = collections;
}

-- `runNightly`; the actor is missing when the scheduler runs it.
unfoldable pub run_nightly : (date : ℕ) → (actor : Option ℕ) → (seen : LedgerDb) → Ledger NightlyRun
unfolding find_eligible_settlements group_by_worker create_nightly_collections collections_for_date
    set_all total_amount count
run_nightly date actor seen db =
    let groups = group_by_worker (find_eligible_settlements seen) [] in
    let (generated, db') = create_nightly_collections date actor groups db in
    (
      done (
          report_of date
            (set_all generated (collections_for_date date seen.next_collection seen.collections))),
      db',
    )

-- The bookings of the items, as `updateMany({ where: { id: { in: bookingIds } } })` tests them.
unfoldable pub is_booking_of : Table BookingSettlement → (booking : ℕ) → List CollectionItem → Bool
is_booking_of settlements booking [] = false
is_booking_of settlements booking (item ∷ items) =
    let rest = is_booking_of settlements booking items in
    is_row (λ (s : BookingSettlement). s.booking_id == booking) (settlements item.settlement_id)
    || rest

abbrev pub pay_commissions : List CollectionItem → LedgerDb → LedgerDb
pay_commissions items db = record db {
  bookings =
      update_many (λ i (b : LedgerBooking). is_booking_of db.settlements i items)
        (λ (b : LedgerBooking). record b { commission_paid = true }) db.bookings;
}

abbrev pub collected_time : (now : ℕ) → CommissionCollectionStatus → Option ℕ
collected_time now status = if is_collected status then some now else none

-- `updateCollection` of the repository, on the row it read.
unfoldable pub write_status :
    (now id : ℕ) → CommissionCollectionStatus → CommissionCollection → Ledger CommissionCollection
unfolding is_booking_of
write_status now id status before db =
    if is_collected before.status && not (is_collected status)
    then raise collected_immutable db
    else if same_collection_status before.status status
    then pure before db
    else (let c = record before { status = status; collected_at = collected_time now status } in
        let db' = record db { collections = put id c db.collections } in
        (done c, if is_collected status then pay_commissions before.items db' else db'))

abbrev pub update_row : (now id : ℕ) → CommissionCollectionStatus → Ledger CommissionCollection
update_row now id status = do
  before ← require (← reads (λ (db : LedgerDb). db.collections id)) collection_not_found
  write_status now id status before

-- `updateCollection`
unfoldable pub update_collection :
    (now id : ℕ) → CommissionCollectionStatus → (has_reason : Bool) → Ledger CommissionCollection
unfolding write_status
update_collection now id status has_reason = do
  reject_if (is_failed status && not has_reason) failure_reason_required
  reject_if (is_pending_collection status) back_to_pending
  update_row now id status
