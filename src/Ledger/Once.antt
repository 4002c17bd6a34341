-- ===== src/Ledger/Once.antt =====
-- A settlement's commission is collected once.
use easyrepair.Ledger.Nightly.{locked-AreBacked, collect-IsBalanced}
use easyrepair.Ledger.Collecting.{
  collected_time, new_collection, update_row, is_of_day, write_status, collect_locked,
  create_nightly_collections, add_collection,
}
use easyrepair.Ledger.Writes.{has_item}
use easyrepair.Ledger.Eligible.{
  one_if, settlements_where, item_of, is_eligible, is_live, is_in_live_collection, is_lockable,
  locked_items,
}
use easyrepair.Prelude.{
  ℕ, zero, suc, ◌<◌, ◌≡◌, ◌⊎◌, subst, inl, inr, Bool, true, false, not, ◌&&◌, Option, none, some,
  List, [], ◌∷◌, ◌++◌, map, arith, Option-cases, Table, put, find_first, find_first-none, is_row,
}
use easyrepair.Ledger.State.{
  CommissionCollectionStatus, LedgerDb, CommissionCollection, CollectionItem, BookingSettlement,
}
use easyrepair.Ledger.Balance.{IsEntry, IsBalanced}

-- No two collections that are pending or collected hold items of one settlement.
abbrev pub IsCollectedOnceIn : Table CommissionCollection → Type 0
IsCollectedOnceIn collections =
    (settlement k j : ℕ) (c d : CommissionCollection)
    → collections k ≡ some c
    → collections j ≡ some d
    → (is_live c && has_item settlement c.items) ≡ true
    → (is_live d && has_item settlement d.items) ≡ true
    → k ≡ j

abbrev pub IsCollectedOnce : LedgerDb → Type 0
IsCollectedOnce db = IsCollectedOnceIn db.collections

has_item-append :
    (settlement : ℕ) (p : ℕ → BookingSettlement → Bool) (n : ℕ) (xs : List (ℕ × BookingSettlement))
    (o : Option BookingSettlement)
    → has_item settlement (map item_of (xs ++ one_if p n o)) ≡ true
    → (has_item settlement (map item_of xs) ≡ true) ⊎ ((n ≡ settlement) × is_row (p n) o ≡ true)
unfolding has_item
has_item-append settlement p n [] none h = inl h
has_item-append settlement p n [] (some s) h = ground arith
has_item-append settlement p n (x ∷ xs) o h = ground (arith, has_item-append settlement p n xs o)

-- Each item is of a settlement that fits.
pub has_item-fits :
    (settlement : ℕ) (p : ℕ → BookingSettlement → Bool) (n : ℕ) (t : Table BookingSettlement)
    → has_item settlement (map item_of (settlements_where p n t)) ≡ true
    → is_row (p settlement) (t settlement) ≡ true
unfolding has_item settlements_where
has_item-fits settlement p zero t h = absurd (ground arith)
has_item-fits settlement p (suc n) t h =
    elim (has_item-append settlement p n (settlements_where p n t) (t n) h) [
      | inl earlier ↦ has_item-fits settlement p n t earlier
      | inr (here, fits) ↦ subst (λ i. is_row (p i) (t i) ≡ true) here fits
    ]

row_is_free :
    (db : LedgerDb) (worker : ℕ) (items : List CollectionItem) (settlement : ℕ)
    (o : Option BookingSettlement)
    → is_row (is_lockable db worker items settlement) o ≡ true
    → is_in_live_collection settlement db ≡ false
unfolding is_lockable is_eligible
row_is_free db worker items settlement o h = ground arith

-- A locked item is of a settlement that no pending or collected collection holds.
locked_free :
    (db : LedgerDb) (worker : ℕ) (items : List CollectionItem) (settlement : ℕ)
    → has_item settlement (locked_items db worker items) ≡ true
    → is_in_live_collection settlement db ≡ false
unfolding locked_items
locked_free db worker items settlement h =
    row_is_free db worker items settlement (db.settlements settlement)
      (has_item-fits settlement (is_lockable db worker items) db.next_settlement db.settlements h)

not_live :
    (settlement k : ℕ) (db : LedgerDb) {c : CommissionCollection}
    → is_in_live_collection settlement db ≡ false
    → k < db.next_collection
    → db.collections k ≡ some c
    → (is_live c && has_item settlement c.items) ≡ false
unfolding is_in_live_collection
not_live settlement k db {c} h l e =
    go (Option-cases (find_first fits db.next_collection db.collections))
  where
    fits : ℕ → CommissionCollection → Bool
    fits i c = is_live c && has_item settlement c.items

    go :
        (find_first fits db.next_collection db.collections ≡ none)
          ⊎ ((r : ℕ × CommissionCollection) × (find_first fits db.next_collection db.collections
                ≡ some r))
        → (is_live c && has_item settlement c.items) ≡ false
    go (inl missing) = find_first-none fits db.next_collection db.collections k missing l e
    go (inr (r, found)) = absurd (ground arith)

entry_below :
    (db : LedgerDb) (k : ℕ) {c : CommissionCollection}
    → IsBalanced db
    → db.collections k ≡ some c
    → k < db.next_collection
entry_below db k {c} h e = (subst (IsEntry db.settlements db.next_collection k) e (h.entries k)).0

add-IsCollectedOnce :
    (c : CommissionCollection) (db : LedgerDb)
    → IsBalanced db
    → ((settlement : ℕ)
        → has_item settlement c.items ≡ true
        → is_in_live_collection settlement db ≡ false)
    → IsCollectedOnce db
    → IsCollectedOnce (add_collection c db)
add-IsCollectedOnce c db h free once settlement k j a b ea eb la lb = ground (
  arith,
  once settlement k j a b,
  free settlement,
  entry_below db k {c = a} h,
  entry_below db j {c = b} h,
  not_live settlement k db {c = a},
  not_live settlement j db {c = b},
)

-- Both invariants.
abbrev pub IsSound : LedgerDb → Type 0
IsSound db = IsBalanced db × IsCollectedOnce db

module _ (date : ℕ) (actor : Option ℕ) where
  collect_locked-IsCollectedOnce :
      (worker : ℕ) (items : List CollectionItem) (db : LedgerDb)
      → ((settlement : ℕ)
          → has_item settlement items ≡ true
          → is_in_live_collection settlement db ≡ false)
      → IsSound db
      → IsCollectedOnce (collect_locked date actor worker items db).1
  unfolding collect_locked
  collect_locked-IsCollectedOnce worker [] db free h = h.1
  collect_locked-IsCollectedOnce worker (item ∷ items) db free h = elim (Option-cases standing) [
    | inl missing ↦
        rw missing
          (add-IsCollectedOnce (new_collection worker date actor (item ∷ items)) db h.0 free h.1)
    | inr (c, found) ↦ rw found h.1
  ]
    where
      standing : Option (ℕ × CommissionCollection)
      standing = find_first (λ i. is_of_day worker date) db.next_collection db.collections

  pub nightly-IsCollectedOnce :
      (groups : List (ℕ × List CollectionItem)) (db : LedgerDb)
      → IsSound db
      → IsCollectedOnce (create_nightly_collections date actor groups db).1
  unfolding create_nightly_collections
  nightly-IsCollectedOnce [] db h = h.1
  nightly-IsCollectedOnce ((worker, items) ∷ groups) db h = nightly-IsCollectedOnce groups _ (
    collect-IsBalanced date actor worker (locked_items db worker items) db
        (locked-AreBacked db worker items) h.0,
    collect_locked-IsCollectedOnce worker (locked_items db worker items) db
        (locked_free db worker items) h,
  )

-- A collection that is live keeps its items when its status changes.
status-IsCollectedOnce :
    (id : ℕ) (before c : CommissionCollection) (db : LedgerDb)
    → db.collections id ≡ some before
    → is_live before ≡ true
    → c.items ≡ before.items
    → IsCollectedOnce db
    → IsCollectedOnceIn (put id c db.collections)
status-IsCollectedOnce id before c db e live items once settlement k j a b ea eb la lb =
    ground
      (arith, once settlement k j a b, once settlement k j before b, once settlement k j a before)

-- `COLLECTED` or `FAILED` for a collection that had failed or was cancelled.
abbrev pub is_revived : Option CommissionCollection → Bool
is_revived none = false
is_revived (some c) = not (is_live c)

pub update-IsCollectedOnce :
    (now id : ℕ) (status : CommissionCollectionStatus) (db : LedgerDb)
    → is_revived (db.collections id) ≡ false
    → IsCollectedOnce db
    → IsCollectedOnce (update_row now id status db).1
unfolding write_status
update-IsCollectedOnce now id status db same once = elim (Option-cases (db.collections id)) [
  | inl missing ↦ rw missing once
  | inr (c, found) ↦ rw found (
      ground (
        arith,
        rw found at same,
        status-IsCollectedOnce id c
            (record c { status = status; collected_at = collected_time now status }) db found,
      ))
]
