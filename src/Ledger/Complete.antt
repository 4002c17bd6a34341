-- ===== src/Ledger/Complete.antt =====
-- What a nightly run collects.
use easyrepair.Ledger.Once.{has_item-fits}
use easyrepair.Ledger.Grouping.{grouped, are_distinct, listed_where, all_hold, has_group, is_listed}
use easyrepair.Ledger.Collecting.{
  run_nightly, add_collection, new_collection, collect_locked, create_nightly_collections,
  is_of_day,
}
use easyrepair.Ledger.Writes.{has_item}
use easyrepair.Ledger.Eligible.{
  group_by_worker, find_eligible_settlements, is_live, settlements_where, item_of, is_replaced,
  is_lockable, locked_items, is_eligible, is_in_live_collection,
}
use easyrepair.Prelude.{
  ℕ, ◌<◌, ◌≡◌, refl, sym, subst, ◌∙◌, inl, inr, Bool, true, false, ◌&&◌, ◌||◌, Option, none, some,
  List, [], ◌∷◌, map, arith, ◌==◌, Bool-cases, Option-cases, Table, find_first, find_first-put,
  find_first-new, ==_iff,
}
use easyrepair.Ledger.State.{LedgerDb, CommissionCollection, CollectionItem, BookingSettlement}

-- What an added collection changes of a search for the live collections of a settlement.
live-add :
    (id : ℕ) (c : CommissionCollection) (db : LedgerDb)
    → is_in_live_collection id (add_collection c db)
      ≡ ((is_live c && has_item id c.items) || is_in_live_collection id db)
unfolding is_in_live_collection find_first
live-add id c db = ground (
  arith,
  find_first-put (λ i (c : CommissionCollection). is_live c && has_item id c.items)
      db.next_collection db.next_collection c db.collections,
)

listed_item :
    (worker id : ℕ) (xs : List (ℕ × BookingSettlement))
    → is_listed worker id xs ≡ true
    → has_item id (map item_of xs) ≡ true
unfolding is_listed has_item
listed_item worker id [] h = h
listed_item worker id ((i, s) ∷ xs) h = ground (arith, listed_item worker id xs)

has_item-where :
    (p : ℕ → BookingSettlement → Bool) (n id : ℕ) (t : Table BookingSettlement)
    (s : BookingSettlement)
    → id < n
    → t id ≡ some s
    → p id s ≡ true
    → has_item id (map item_of (settlements_where p n t)) ≡ true
has_item-where p n id t s l e h =
    listed_item s.worker_profile_id id (settlements_where p n t) (listed_where p n id t s l e h)

module _ (date : ℕ) (actor : Option ℕ) (id : ℕ) (s : BookingSettlement) where
  abbrev of_day : ℕ → CommissionCollection → Bool
  of_day i = is_of_day s.worker_profile_id date

  -- The settlement may be collected, and its worker has no collection of the day.
  pub record IsWaiting (db : LedgerDb) : Type 0 where
    pub stored : db.settlements id ≡ some s
    pub numbered : id < db.next_settlement
    pub current : s.is_current ≡ true
    pub eligible : is_eligible db id s ≡ true
    pub no_collection : find_first of_day db.next_collection db.collections ≡ none

  -- A collection of another worker without the settlement.
  waits_on :
      (c : CommissionCollection) (db : LedgerDb)
      → has_item id c.items ≡ false
      → (c.worker_profile_id == s.worker_profile_id) ≡ false
      → IsWaiting db
      → IsWaiting (add_collection c db)
  unfolding is_eligible is_replaced
  waits_on c db absent other h = record {
    stored = h.stored;
    numbered = h.numbered;
    current = h.current;
    eligible = ground (arith, h.eligible, live-add id c db);
    no_collection =
        find_first-new of_day db.next_collection c db.collections (ground arith) ∙ h.no_collection;
  }

  -- The group of the worker.
  collects :
      (items : List CollectionItem) (db : LedgerDb)
      → has_item id items ≡ true
      → IsWaiting db
      → is_in_live_collection id (collect_locked date actor s.worker_profile_id items db).1 ≡ true
  unfolding collect_locked has_item
  collects [] db held h = absurd (ground arith)
  collects (item ∷ items) db held h = rw h.no_collection (
      ground (arith, live-add id (new_collection s.worker_profile_id date actor (item ∷ items)) db))

  locked_waiting :
      (items : List CollectionItem) (db : LedgerDb)
      → has_item id items ≡ true
      → IsWaiting db
      → has_item id (locked_items db s.worker_profile_id items) ≡ true
  unfolding locked_items is_lockable
  locked_waiting items db held h =
      has_item-where (is_lockable db s.worker_profile_id items) db.next_settlement id db.settlements
        s h.numbered h.stored (ground (arith, h.current, h.eligible))

  not_locked :
      (worker : ℕ) (items : List CollectionItem) (db : LedgerDb)
      → (worker == s.worker_profile_id) ≡ false
      → IsWaiting db
      → has_item id (locked_items db worker items) ≡ false
  unfolding locked_items is_lockable
  not_locked worker items db other h =
      elim (Bool-cases (has_item id (locked_items db worker items))) [
        | inl held ↦ absurd (
            ground (
              arith,
              has_item-fits id (is_lockable db worker items) db.next_settlement db.settlements held,
              h.stored,
            ))
        | inr absent ↦ absent
      ]

  -- The group of another worker.
  waits :
      (worker : ℕ) (items : List CollectionItem) (db : LedgerDb)
      → (worker == s.worker_profile_id) ≡ false
      → has_item id items ≡ false
      → IsWaiting db
      → IsWaiting (collect_locked date actor worker items db).1
  unfolding collect_locked
  waits worker [] db other absent h = h
  waits worker (item ∷ items) db other absent h = elim (Option-cases standing) [
    | inl missing ↦
        rw missing (waits_on (new_collection worker date actor (item ∷ items)) db absent other h)
    | inr (c, found) ↦ rw found h
  ]
    where
      standing : Option (ℕ × CommissionCollection)
      standing = find_first (λ i. is_of_day worker date) db.next_collection db.collections

  -- What is collected stays so.
  stays :
      (worker : ℕ) (items : List CollectionItem) (db : LedgerDb)
      → is_in_live_collection id db ≡ true
      → is_in_live_collection id (collect_locked date actor worker items db).1 ≡ true
  unfolding collect_locked
  stays worker [] db h = h
  stays worker (item ∷ items) db h = elim (Option-cases standing) [
    | inl missing ↦
        rw missing
          (ground (arith, live-add id (new_collection worker date actor (item ∷ items)) db))
    | inr (c, found) ↦ rw found h
  ]
    where
      standing : Option (ℕ × CommissionCollection)
      standing = find_first (λ i. is_of_day worker date) db.next_collection db.collections

  all_stay :
      (groups : List (ℕ × List CollectionItem)) (db : LedgerDb)
      → is_in_live_collection id db ≡ true
      → is_in_live_collection id (create_nightly_collections date actor groups db).1 ≡ true
  unfolding create_nightly_collections
  all_stay [] db h = h
  all_stay ((worker, items) ∷ groups) db h =
      all_stay groups _ (stays worker (locked_items db worker items) db h)

  collected_once :
      (groups : List (ℕ × List CollectionItem)) (db : LedgerDb)
      → (has_group s.worker_profile_id groups && all_hold s.worker_profile_id id groups) ≡ true
      → IsWaiting db
      → is_in_live_collection id (create_nightly_collections date actor groups db).1 ≡ true
  unfolding create_nightly_collections has_group all_hold
  collected_once [] db held h = absurd (ground arith)
  collected_once ((worker, items) ∷ groups) db held h =
      elim (Bool-cases (worker == s.worker_profile_id)) [
        | inl own ↦
            all_stay groups _ (own_group ((==_iff worker s.worker_profile_id).0 own) (ground arith))
        | inr other ↦ collected_once groups _ (ground arith) (
            waits worker (locked_items db worker items) db other
              (not_locked worker items db other h) h)
      ]
    where
      own_group :
          worker ≡ s.worker_profile_id
          → has_item id items ≡ true
          → is_in_live_collection id
              (collect_locked date actor worker (locked_items db worker items) db).1
            ≡ true
      own_group same holds =
          subst
            (λ w.
              is_in_live_collection id (collect_locked date actor w (locked_items db w items) db).1
              ≡ true)
            (sym same)
            (collects (locked_items db s.worker_profile_id items) db
              (locked_waiting items db holds h) h)

  -- The settlement was eligible when the candidates were read.
  pub record IsCandidate (seen : LedgerDb) : Type 0 where
    pub read : seen.settlements id ≡ some s
    pub below : id < seen.next_settlement
    pub fits : is_eligible seen id s ≡ true

  -- A nightly run collects every current settlement that is eligible both when the candidates are
  -- read and when the transaction starts, unless its worker already has a collection of that day:
  -- it stands in a collection that is pending or collected afterwards.
  pub nightly_collects :
      (seen db : LedgerDb)
      → IsCandidate seen
      → IsWaiting db
      → is_in_live_collection id (run_nightly date actor seen db).1 ≡ true
  unfolding run_nightly find_eligible_settlements are_distinct
  nightly_collects seen db candidate waiting =
      collected_once (group_by_worker (find_eligible_settlements seen) []) db
        (grouped s.worker_profile_id id (find_eligible_settlements seen) [] refl (
          ground (
            arith,
            listed_where (is_eligible seen) seen.next_settlement id seen.settlements s
                candidate.below candidate.read candidate.fits,
          )))
        waiting
