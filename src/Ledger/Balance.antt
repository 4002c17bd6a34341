-- ===== src/Ledger/Balance.antt =====
-- The invariant of the ledger, and that the single writes of the requests keep it.
pub mod Writes
use easyrepair.Prelude.{
  ℕ, zero, suc, ℤ, ◌+◌, ◌-◌, ◌*◌, ◌/◌, ◌%◌, ◌≤◌, ◌<◌, min, max, ◌≡◌, ◌≢◌, ◌↔◌, ◌⊎◌, refl, sym,
  subst, ap, ◌∙◌, inl, inr, Bool, true, false, not, ◌&&◌, ◌||◌, Option, none, some, List, [], ◌∷◌,
  ◌++◌, map, arith, ltb, leb, ◌==◌, if◌then◌else◌, Bool-cases, Option-cases, is_some, or_else,
  or_other, holds_id, Table, put, revise, update_many, find_first, find_first-some, find_first-none,
  put_rule, is_row,
}
use easyrepair.Ledger.State.{BookingSettlement, CollectionItem, CommissionCollection, LedgerDb}
use easyrepair.Ledger.Writes.{is_taken, current_settlement, has_item, is_in_collection}
use easyrepair.Ledger.Collecting.{add_collection, total_of}

-- The item is of a settlement that is current, of the worker, and has the item's amount as its
-- commission.
abbrev pub backs : Table BookingSettlement → (worker : ℕ) → CollectionItem → Bool
backs settlements worker item =
    is_row
      (λ (s : BookingSettlement).
        s.is_current && (s.worker_profile_id == worker && s.money.commission == item.amount))
      (settlements item.settlement_id)

abbrev pub AreBacked : Table BookingSettlement → (worker : ℕ) → List CollectionItem → Type 0
AreBacked settlements worker [] = Unit
AreBacked settlements worker (item ∷ items) =
    (backs settlements worker item ≡ true) × AreBacked settlements worker items

abbrev pub IsEntry : Table BookingSettlement → (next k : ℕ) → Option CommissionCollection → Type 0
IsEntry settlements next k none = Unit
IsEntry settlements next k (some c) =
    (k < next) × (c.amount ≡ total_of c.items) × AreBacked settlements c.worker_profile_id c.items

abbrev pub IsNumberedBelow : (next i : ℕ) → Option BookingSettlement → Type 0
IsNumberedBelow next i none = Unit
IsNumberedBelow next i (some s) = i < next

-- One settlement of a booking is current; a collection's amount is the sum of its items, and each
-- of them stands for the whole commission of a current settlement of the worker.
pub record IsBalancedOf (settlements : Table BookingSettlement) (next_settlement : ℕ)
    (collections : Table CommissionCollection) (next_collection : ℕ) : Type 0 where
  pub numbered : (i : ℕ) → IsNumberedBelow next_settlement i (settlements i)
  pub one_current :
      (i j : ℕ) (a b : BookingSettlement)
      → settlements i ≡ some a
      → settlements j ≡ some b
      → a.is_current ≡ true
      → b.is_current ≡ true
      → a.booking_id ≡ b.booking_id
      → i ≡ j
  pub entries : (k : ℕ) → IsEntry settlements next_collection k (collections k)

abbrev pub IsBalanced : LedgerDb → Type 0
IsBalanced db = IsBalancedOf db.settlements db.next_settlement db.collections db.next_collection

module _ (t : Table BookingSettlement) (worker : ℕ) where
  put-AreBacked :
      (old : ℕ) (s : BookingSettlement) (items : List CollectionItem)
      → has_item old items ≡ false
      → AreBacked t worker items
      → AreBacked (put old s t) worker items
  unfolding has_item
  put-AreBacked old s [] h b = tt
  put-AreBacked old s (item ∷ items) h b = ground (arith, put-AreBacked old s items)

  new-AreBacked :
      (n : ℕ) (s : BookingSettlement) (items : List CollectionItem)
      → t n ≡ none
      → AreBacked t worker items
      → AreBacked (put n s t) worker items
  new-AreBacked n s [] h b = tt
  new-AreBacked n s (item ∷ items) h b = ground (arith, new-AreBacked n s items h b.1)

-- A collection that holds an item of the settlement is not missed.
not_collected :
    (old k : ℕ) (db : LedgerDb) {c : CommissionCollection}
    → is_in_collection old db ≡ false
    → k < db.next_collection
    → db.collections k ≡ some c
    → has_item old c.items ≡ false
unfolding is_in_collection
not_collected old k db {c} h l e =
    go (Option-cases (find_first fits db.next_collection db.collections))
  where
    fits : ℕ → CommissionCollection → Bool
    fits i c = has_item old c.items

    go :
        (find_first fits db.next_collection db.collections ≡ none)
          ⊎ ((r : ℕ × CommissionCollection) × (find_first fits db.next_collection db.collections
                ≡ some r))
        → has_item old c.items ≡ false
    go (inl missing) = find_first-none fits db.next_collection db.collections k missing l e
    go (inr (r, found)) = absurd (ground (arith))

-- A settlement that no collection holds may lose its place.
pub uncurrent-IsBalanced :
    (old : ℕ) (row : BookingSettlement) (db : LedgerDb)
    → db.settlements old ≡ some row
    → is_in_collection old db ≡ false
    → IsBalanced db
    → IsBalanced
        (record db { settlements = put old (record row { is_current = false }) db.settlements })
uncurrent-IsBalanced old row db e free h = record {
  numbered = λ i. ground (arith, h.numbered i, h.numbered old);
  one_current = λ i j a b ea eb ca cb same. ground (arith, h.one_current i j a b);
  entries = λ k. entry k (db.collections k) (h.entries k) (λ c. not_collected old k db free);
}
  where
    entry :
        (k : ℕ) (o : Option CommissionCollection)
        → IsEntry db.settlements db.next_collection k o
        → ((c : CommissionCollection)
            → k < db.next_collection
            → o ≡ some c
            → has_item old c.items ≡ false)
        → IsEntry
            (put old (record row { is_current = false }) db.settlements)
            db.next_collection
            k
            o
    entry k none b clear = tt
    entry k (some c) b clear = (
      b.0,
      b.1,
      put-AreBacked db.settlements c.worker_profile_id old (record row { is_current = false })
          c.items (clear c b.0 refl) b.2,
    )

not_taken :
    (row : BookingSettlement) (db : LedgerDb)
    → is_taken row db ≡ false
    → current_settlement row.booking_id db ≡ none
unfolding is_taken
not_taken row db h = ground arith

not_current :
    (booking j : ℕ) (db : LedgerDb) {b : BookingSettlement}
    → current_settlement booking db ≡ none
    → j < db.next_settlement
    → db.settlements j ≡ some b
    → (b.booking_id == booking && b.is_current) ≡ false
unfolding current_settlement
not_current booking j db h l e =
    find_first-none (λ i (s : BookingSettlement). s.booking_id == booking && s.is_current)
      db.next_settlement db.settlements j h l e

pub numbered_below :
    (next i : ℕ) (o : Option BookingSettlement) {a : BookingSettlement}
    → IsNumberedBelow next i o
    → o ≡ some a
    → i < next
numbered_below next i o h e = ground arith

no_row_yet : (next : ℕ) (o : Option BookingSettlement) → IsNumberedBelow next next o → o ≡ none
no_row_yet next o h = ground arith

-- A new settlement of a booking that has no current one.
pub create-IsBalanced :
    (row : BookingSettlement) (db : LedgerDb)
    → is_taken row db ≡ false
    → IsBalanced db
    → IsBalanced (record db {
      settlements = put db.next_settlement row db.settlements;
      next_settlement = db.next_settlement + 1;
    })
create-IsBalanced row db free h = record {
  numbered = λ i. ground (arith, h.numbered i);
  one_current = λ i j a b ea eb ca cb same. ground (
    arith,
    h.one_current i j a b,
    no_row_yet db.next_settlement (db.settlements db.next_settlement)
        (h.numbered db.next_settlement),
    numbered_below db.next_settlement i (db.settlements i) {a = a} (h.numbered i),
    numbered_below db.next_settlement j (db.settlements j) {a = b} (h.numbered j),
    not_current row.booking_id i db {b = a} (not_taken row db free),
    not_current row.booking_id j db {b = b} (not_taken row db free),
  );
  entries = λ k. entry k (db.collections k) (h.entries k);
}
  where
    entry :
        (k : ℕ) (o : Option CommissionCollection)
        → IsEntry db.settlements db.next_collection k o
        → IsEntry (put db.next_settlement row db.settlements) db.next_collection k o
    entry k none b = tt
    entry k (some c) b = (
      b.0,
      b.1,
      new-AreBacked db.settlements c.worker_profile_id db.next_settlement row c.items
          (no_row_yet db.next_settlement (db.settlements db.next_settlement)
            (h.numbered db.next_settlement))
          b.2,
    )

-- A new collection of items that are backed.
pub add-IsBalanced :
    (c : CommissionCollection) (db : LedgerDb)
    → c.amount ≡ total_of c.items
    → AreBacked db.settlements c.worker_profile_id c.items
    → IsBalanced db
    → IsBalanced (add_collection c db)
add-IsBalanced c db amount backed h = record {
  numbered = h.numbered;
  one_current = h.one_current;
  entries =
      put_rule (IsEntry db.settlements (db.next_collection + 1)) db.next_collection c db.collections
        (omega arith, amount, backed) (λ k. later k (db.collections k) (h.entries k));
}
  where
    later :
        (k : ℕ) (o : Option CommissionCollection)
        → IsEntry db.settlements db.next_collection k o
        → IsEntry db.settlements (db.next_collection + 1) k o
    later k none b = tt
    later k (some c) b = (omega arith, b.1, b.2)

-- A collection that changes nothing but its status.
pub status-IsBalanced :
    (id : ℕ) (before c : CommissionCollection) (db : LedgerDb)
    → db.collections id ≡ some before
    → c.amount ≡ before.amount
    → c.items ≡ before.items
    → c.worker_profile_id ≡ before.worker_profile_id
    → IsBalanced db
    → IsBalanced (record db { collections = put id c db.collections })
status-IsBalanced id before c db e amount items worker h = record {
  numbered = h.numbered;
  one_current = h.one_current;
  entries =
      put_rule (IsEntry db.settlements db.next_collection) id c db.collections
        (rw (amount, items, worker)
          (subst (IsEntry db.settlements db.next_collection id) e (h.entries id)))
        h.entries;
}
