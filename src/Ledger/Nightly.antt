-- ===== src/Ledger/Nightly.antt =====
-- What a nightly run collects, and that it keeps the invariant of the ledger.
use easyrepair.Ledger.Eligible.{
  find_eligible_settlements, is_lockable, group_by_worker, one_if, item_of, settlements_where,
  locked_items,
}
use easyrepair.Ledger.Collecting.{
  update_row, collected_time, new_collection, write_status, is_of_day, create_nightly_collections,
  collect_locked, update_collection, run_nightly,
}
use easyrepair.Prelude.{
  ℕ, zero, suc, ◌≡◌, refl, inl, inr, Bool, true, ◌&&◌, Option, none, some, List, [], ◌∷◌, ◌++◌, map,
  arith, ◌==◌, Option-cases, Table, find_first,
}
use easyrepair.Steps.Keeps.{Keeps, sequence-Keeps, reject-Keeps}
use easyrepair.Ledger.State.{
  CommissionCollectionStatus, BookingSettlement, CollectionItem, CommissionCollection, LedgerDb,
}
use easyrepair.Ledger.Balance.{IsBalanced, add-IsBalanced, status-IsBalanced, AreBacked}

module _ (t : Table BookingSettlement) (worker : ℕ) where
  append-AreBacked :
      (xs ys : List (ℕ × BookingSettlement))
      → AreBacked t worker (map item_of xs)
      → AreBacked t worker (map item_of ys)
      → AreBacked t worker (map item_of (xs ++ ys))
  append-AreBacked [] ys a b = b
  append-AreBacked (x ∷ xs) ys a b = (a.0, append-AreBacked xs ys a.1 b)

  module _ (p : ℕ → BookingSettlement → Bool) where
    abbrev PicksOwn : Type 0
    PicksOwn =
        (i : ℕ) (s : BookingSettlement)
        → p i s ≡ true
        → (s.worker_profile_id == worker && s.is_current) ≡ true

    one-AreBacked :
        (n : ℕ) (o : Option BookingSettlement)
        → PicksOwn
        → t n ≡ o
        → AreBacked t worker (map item_of (one_if p n o))
    one-AreBacked n none own e = tt
    one-AreBacked n (some s) own e = ground (arith, own n s)

    where-AreBacked :
        (n : ℕ) → PicksOwn → AreBacked t worker (map item_of (settlements_where p n t))
    unfolding settlements_where
    where-AreBacked zero own = tt
    where-AreBacked (suc n) own =
        append-AreBacked (settlements_where p n t) (one_if p n (t n)) (where-AreBacked n own)
          (one-AreBacked n (t n) own refl)

pub locked-AreBacked :
    (db : LedgerDb) (worker : ℕ) (items : List CollectionItem)
    → AreBacked db.settlements worker (locked_items db worker items)
unfolding locked_items is_lockable
locked-AreBacked db worker items =
    where-AreBacked db.settlements worker (is_lockable db worker items) db.next_settlement
      λ i s h. ground arith

module _ (date : ℕ) (actor : Option ℕ) where
  pub collect-IsBalanced :
      (worker : ℕ) (items : List CollectionItem) (db : LedgerDb)
      → AreBacked db.settlements worker items
      → IsBalanced db
      → IsBalanced (collect_locked date actor worker items db).1
  unfolding collect_locked
  collect-IsBalanced worker [] db backed h = h
  collect-IsBalanced worker (item ∷ items) db backed h = elim (Option-cases standing) [
    | inl missing ↦
        rw missing
          (add-IsBalanced (new_collection worker date actor (item ∷ items)) db refl backed h)
    | inr (c, found) ↦ rw found h
  ]
    where
      standing : Option (ℕ × CommissionCollection)
      standing = find_first (λ i. is_of_day worker date) db.next_collection db.collections

  nightly-IsBalanced :
      (groups : List (ℕ × List CollectionItem)) (db : LedgerDb)
      → IsBalanced db
      → IsBalanced (create_nightly_collections date actor groups db).1
  unfolding create_nightly_collections
  nightly-IsBalanced [] db h = h
  nightly-IsBalanced ((worker, items) ∷ groups) db h = nightly-IsBalanced groups _ (
      collect-IsBalanced worker (locked_items db worker items) db (locked-AreBacked db worker items)
        h)

pub run_nightly-Kept :
    (date : ℕ) (actor : Option ℕ) (seen : LedgerDb) → Keeps IsBalanced (run_nightly date actor seen)
unfolding run_nightly
run_nightly-Kept date actor seen = record {
  after = nightly-IsBalanced date actor (group_by_worker (find_eligible_settlements seen) []);
}

update_row-Kept :
    (now id : ℕ) (status : CommissionCollectionStatus) → Keeps IsBalanced (update_row now id status)
unfolding write_status
update_row-Kept now id status = record {
  after = λ db h. elim (Option-cases (db.collections id)) [
    | inl missing ↦ rw missing h
    | inr (c, found) ↦ rw found (
        ground (
          arith,
          status-IsBalanced id c
              (record c { status = status; collected_at = collected_time now status }) db found refl
              refl refl h,
        ))
  ];
}

pub update_collection-Kept :
    (now id : ℕ) (status : CommissionCollectionStatus) (has_reason : Bool)
    → Keeps IsBalanced (update_collection now id status has_reason)
unfolding update_collection
update_collection-Kept now id status has_reason =
    search (sequence-Keeps, reject-Keeps, update_row-Kept)
