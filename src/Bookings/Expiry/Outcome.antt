-- ===== src/Bookings/Expiry/Outcome.antt =====
-- What a sweep may write, and what it counts.
use easyrepair.Prelude.{
  ℕ, zero, suc, ◌≡◌, refl, ◌⊎◌, ◌∙◌, sym, subst, inl, inr, true, false, not, ◌&&◌, some, List, [],
  ◌∷◌, arith, ◌==◌, Bool-cases, Option-cases, Table, is_row,
}
use easyrepair.Schema.{BookingStatus, Booking, is_pending}
use easyrepair.Store.{Db}
use easyrepair.Bookings.Transactions.{expire_if_pending}
use easyrepair.Bookings.Cancellation.{expire_booking, expire_found, expire_read, find_accepted_bid}
use easyrepair.Bookings.Expiry.{
  ExpirySweepResult, due_bookings, take, length, count_outcome, sweep_candidates,
  sweep_expired_bookings,
}
use easyrepair.Bookings.Expiry.Sweep.{is_held, is_listed, is_due, add-is_listed, expire_other}

-- A row that the query found due, PENDING and not held, that is EXPIRED now.
pub record Expires (now id : ℕ) (seen db after : Db) : Type 0 where
  pub booking : Booking
  pub was_due : is_row (is_due now) (seen.bookings id) ≡ true
  pub found : db.bookings id ≡ some booking
  pub pending : is_pending booking.status ≡ true
  pub not_held : is_held id booking db ≡ false
  pub now_expired : after.bookings id ≡ some (record booking { status = BookingStatus.expired })

module _ (id : ℕ) where
  listed-is_due :
      (now n : ℕ) (t : Table Booking)
      → is_listed id (due_bookings now n t) ≡ true
      → is_row (is_due now) (t id) ≡ true
  unfolding due_bookings is_listed
  listed-is_due now zero t listed = cc
  listed-is_due now (suc n) t listed =
      ground (arith, add-is_listed id now n (t n) (due_bookings now n t), listed-is_due now n t)

  take-is_listed :
      (n : ℕ) (xs : List (ℕ × ℕ)) → is_listed id (take n xs) ≡ true → is_listed id xs ≡ true
  unfolding take is_listed
  take-is_listed zero xs listed = cc
  take-is_listed (suc n) [] listed = cc
  take-is_listed (suc n) ((j, e) ∷ xs) listed = ground (arith, take-is_listed n xs)

  expire_pending :
      (j : ℕ) (db : Db) (b : Booking)
      → (j == id) ≡ true
      → db.bookings id ≡ some b
      → is_pending b.status ≡ true
      → is_held id b db ≡ false
      → (expire_booking j db db).1.bookings id ≡ some (record b { status = BookingStatus.expired })
  unfolding expire_booking expire_found expire_read expire_if_pending
  expire_pending j db b here found pending free = ground arith

  -- A booking that is missing, not PENDING or held.
  expire_unless :
      (j : ℕ) (db : Db)
      → (j == id) ≡ true
      → is_row (λ (b : Booking). is_pending b.status && not (is_held id b db)) (db.bookings id)
        ≡ false
      → (expire_booking j db db).1 ≡ db
  unfolding expire_booking expire_found expire_read expire_if_pending
  expire_unless j db here blocked = ground arith

  stays :
      (j : ℕ) (db : Db) (b : Booking)
      → db.bookings id ≡ some b
      → is_pending b.status ≡ false
      → (expire_booking j db db).1.bookings id ≡ some b
  unfolding expire_booking expire_found expire_read expire_if_pending
  stays j db b found other = ground arith

  -- A booking that is not PENDING stays as it is.
  sweep_leaves :
      (xs : List (ℕ × ℕ)) (r : ExpirySweepResult) (db : Db) (b : Booking)
      → db.bookings id ≡ some b
      → is_pending b.status ≡ false
      → (sweep_candidates xs r db).1.bookings id ≡ some b
  unfolding sweep_candidates
  sweep_leaves [] r db b found other = found
  sweep_leaves ((j, e) ∷ xs) r db b found other =
      sweep_leaves xs (count_outcome (expire_booking j db db).0 r) (expire_booking j db db).1 b
        (stays j db b found other) other

  before-Expires :
      (now : ℕ) (seen db db' after : Db)
      → db'.bookings id ≡ db.bookings id
      → db'.bids ≡ db.bids
      → db'.next_bid ≡ db.next_bid
      → Expires now id seen db' after
      → Expires now id seen db after
  unfolding find_accepted_bid
  before-Expires now seen db db' after row bids next x = record {
    booking = x.booking;
    was_due = x.was_due;
    found = rw (← row) x.found;
    pending = x.pending;
    not_held = rw (← bids, ← next) x.not_held;
    now_expired = x.now_expired;
  }

  abbrev OneOutcome : (now : ℕ) → (seen db after : Db) → Type 0
  OneOutcome now seen db after = (after.bookings id ≡ db.bookings id) ⊎ Expires now id seen db after

  -- The loop on one booking.
  sweep_one :
      (now : ℕ) (seen : Db) (xs : List (ℕ × ℕ)) (r : ExpirySweepResult) (db : Db)
      → (is_listed id xs ≡ true → is_row (is_due now) (seen.bookings id) ≡ true)
      → OneOutcome now seen db (sweep_candidates xs r db).1
  unfolding sweep_candidates is_listed
  sweep_one now seen [] r db due = inl refl
  sweep_one now seen ((j, e) ∷ xs) r db due = elim (Bool-cases (j == id)) [
    | inr other ↦
        let (row, bids, next) = expire_other id j db other in
        elim (sweep_one now seen xs (count_outcome (expire_booking j db db).0 r)
          (expire_booking j db db).1 (λ listed. due (ground arith))) [
            | inl same ↦ inl (same ∙ row)
            | inr x ↦ inr (
                before-Expires now seen db (expire_booking j db db).1
                  (sweep_candidates xs (count_outcome (expire_booking j db db).0 r)
                    (expire_booking j db db).1).1
                  row bids next x)
          ]
    | inl here ↦
        elim (Bool-cases (
          is_row (λ (b : Booking). is_pending b.status && not (is_held id b db))
            (db.bookings id))) [
              | inr blocked ↦
                  subst
                    (λ d.
                      OneOutcome now seen db
                        (sweep_candidates xs (count_outcome (expire_booking j db db).0 r) d).1)
                    (sym (expire_unless j db here blocked))
                    (sweep_one now seen xs (count_outcome (expire_booking j db db).0 r) db
                      (λ listed. due (ground arith)))
              | inl ready ↦ elim (Option-cases (db.bookings id)) [
                | inl gone ↦ absurd (ground arith)
                | inr (b, found) ↦ inr (record {
                  booking = b;
                  was_due = due (ground arith);
                  found = found;
                  pending = ground arith;
                  not_held = ground arith;
                  now_expired =
                      sweep_leaves xs (count_outcome (expire_booking j db db).0 r)
                        (expire_booking j db db).1 (record b { status = BookingStatus.expired })
                        (expire_pending j db b here found (ground arith) (ground arith)) refl;
                })
              ]
            ]
  ]

  -- After a sweep, a booking is as it was when the loop began, or it was one that the query found due,
  -- PENDING when the loop began and, if it is a BIDDING one, without an accepted bid, and is the same
  -- but for its status, EXPIRED.
  pub sweep_writes :
      (now limit : ℕ) (seen db : Db)
      → ((sweep_expired_bookings now limit seen db).1.bookings id ≡ db.bookings id)
        ⊎ Expires now id seen db (sweep_expired_bookings now limit seen db).1
  unfolding sweep_expired_bookings
  sweep_writes now limit seen db =
      sweep_one now seen (take limit (due_bookings now seen.next_booking seen.bookings))
        (record {
          scanned = length (take limit (due_bookings now seen.next_booking seen.bookings));
          expired = 0;
          skipped = 0;
          failed = 0;
        })
        db
        (λ listed.
          listed-is_due now seen.next_booking seen.bookings
            (take-is_listed limit (due_bookings now seen.next_booking seen.bookings) listed))
