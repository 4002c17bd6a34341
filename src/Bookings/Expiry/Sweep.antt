-- ===== src/Bookings/Expiry/Sweep.antt =====
-- What a sweep of the due bookings does.
use easyrepair.Prelude.{
  Option, none, leb, ℕ, zero, suc, ◌≤◌, ◌<◌, ◌≡◌, refl, inl, inr, Bool, true, false, ◌&&◌, ◌||◌,
  some, List, [], ◌∷◌, arith, ◌==◌, is_some, ap, Bool-cases, Table, is_row,
}
use easyrepair.Schema.{Booking, is_pending, is_expired, is_bidding}
use easyrepair.Store.{Db}
use easyrepair.Bookings.Transactions.{expire_if_pending}
use easyrepair.Bookings.Cancellation.{expire_booking, expire_found, expire_read, find_accepted_bid}
use easyrepair.Bookings.Expiry.{
  ExpirySweepResult, insert_by_expiry, add_due, add_booking, due_bookings, take, length,
  count_outcome, sweep_candidates, sweep_expired_bookings,
}

abbrev pub is_expired_booking : Booking → Bool
is_expired_booking b = is_expired b.status

-- An accepted bid keeps a BIDDING booking from expiring.
abbrev pub is_held : (id : ℕ) → Booking → Db → Bool
is_held id b db = is_bidding b.lane && is_some (find_accepted_bid id db)

unfoldable pub is_listed : ℕ → List (ℕ × ℕ) → Bool
is_listed id [] = false
is_listed id ((j, e) ∷ rest) = let later = is_listed id rest in (j == id) || later

-- `expiresAt` is set, and not later than `now`.
abbrev pub is_past : (now : ℕ) → Option ℕ → Bool
is_past now none = false
is_past now (some e) = leb e now

abbrev pub is_due : (now : ℕ) → Booking → Bool
is_due now b = is_pending b.status && is_past now b.expires_at

module _ (id : ℕ) where
  insert-is_listed :
      (j e : ℕ) (xs : List (ℕ × ℕ))
      → is_listed id (insert_by_expiry j e xs) ≡ ((j == id) || is_listed id xs)
  unfolding is_listed insert_by_expiry
  insert-is_listed j e [] = refl
  insert-is_listed j e ((k, f) ∷ rest) = ground (arith, insert-is_listed j e rest)

  add_due-is_listed :
      (now n : ℕ) (o : Option ℕ) (pending : Bool) (xs : List (ℕ × ℕ))
      → is_listed id (add_due now n o pending xs)
        ≡ ((n == id) && (pending && is_past now o) || is_listed id xs)
  unfolding add_due
  add_due-is_listed now n none pending xs = ground arith
  add_due-is_listed now n (some e) pending xs = ground (arith, insert-is_listed n e xs)

  -- What a row adds to the candidates.
  pub add-is_listed :
      (now n : ℕ) (row : Option Booking) (xs : List (ℕ × ℕ))
      → is_listed id (add_booking now n row xs)
        ≡ ((n == id) && is_row (is_due now) row || is_listed id xs)
  unfolding add_booking
  add-is_listed now n none xs = ground arith
  add-is_listed now n (some b) xs =
      ground (arith, add_due-is_listed now n b.expires_at (is_pending b.status) xs)

  due-is_listed :
      (now n : ℕ) (t : Table Booking)
      → id < n
      → is_row (is_due now) (t id) ≡ true
      → is_listed id (due_bookings now n t) ≡ true
  unfolding due_bookings
  due-is_listed now zero t l due = absurd (omega arith)
  due-is_listed now (suc n) t l due =
      ground (arith, add-is_listed now n (t n) (due_bookings now n t), due-is_listed now n t)

  -- The expiry of another booking.
  pub expire_other :
      (j : ℕ) (db : Db)
      → (j == id) ≡ false
      → ((expire_booking j db db).1.bookings id ≡ db.bookings id)
        × ((expire_booking j db db).1.bids ≡ db.bids)
        × ((expire_booking j db db).1.next_bid ≡ db.next_bid)
  unfolding expire_booking expire_found expire_read expire_if_pending
  expire_other j db other = ground arith

  expire_this :
      (db : Db) {b : Booking}
      → db.bookings id ≡ some b
      → is_pending b.status ≡ true
      → is_held id b db ≡ false
      → is_row is_expired_booking ((expire_booking id db db).1.bookings id) ≡ true
  unfolding expire_booking expire_found expire_read expire_if_pending
  expire_this db found pending free = ground arith

  stays_expired :
      (j : ℕ) (db : Db)
      → is_row is_expired_booking (db.bookings id) ≡ true
      → is_row is_expired_booking ((expire_booking j db db).1.bookings id) ≡ true
  unfolding expire_booking expire_found expire_read expire_if_pending
  stays_expired j db done = ground arith

  -- The loop reaches every candidate.
  sweep_keeps :
      (xs : List (ℕ × ℕ)) (r : ExpirySweepResult) (db : Db)
      → is_row is_expired_booking (db.bookings id) ≡ true
      → is_row is_expired_booking ((sweep_candidates xs r db).1.bookings id) ≡ true
  unfolding sweep_candidates
  sweep_keeps [] r db done = done
  sweep_keeps ((j, e) ∷ xs) r db done =
      sweep_keeps xs (count_outcome (expire_booking j db db).0 r) (expire_booking j db db).1
        (stays_expired j db done)

  still_free :
      (j : ℕ) (db : Db) (b : Booking)
      → (j == id) ≡ false
      → is_held id b db ≡ false
      → is_held id b (expire_booking j db db).1 ≡ false
  unfolding find_accepted_bid
  still_free j db b other free =
      let (same, bids, next) = expire_other j db other in rw (bids, next) free

  sweep_reaches :
      (xs : List (ℕ × ℕ)) (r : ExpirySweepResult) (db : Db) (b : Booking)
      → is_listed id xs ≡ true
      → db.bookings id ≡ some b
      → is_pending b.status ≡ true
      → is_held id b db ≡ false
      → is_row is_expired_booking ((sweep_candidates xs r db).1.bookings id) ≡ true
  unfolding sweep_candidates is_listed
  sweep_reaches [] r db b listed found pending free = cc
  sweep_reaches ((j, e) ∷ xs) r db b listed found pending free = elim (Bool-cases (j == id)) [
    | inl here ↦
        sweep_keeps xs (count_outcome (expire_booking j db db).0 r) (expire_booking j db db).1
          (ground (arith, expire_this db found pending free))
    | inr other ↦
        sweep_reaches xs (count_outcome (expire_booking j db db).0 r) (expire_booking j db db).1 b
          (ground arith) (rw (expire_other j db other).0 found) pending
          (still_free j db b other free)
  ]

take-all : (limit : ℕ) (xs : List (ℕ × ℕ)) → length xs ≤ limit → take limit xs ≡ xs
unfolding take length
take-all zero [] fits = refl
take-all (suc n) [] fits = refl
take-all zero (x ∷ xs) fits = absurd (omega arith)
take-all (suc n) (x ∷ xs) fits = ap (λ ys. x ∷ ys) (take-all n xs (omega arith))

-- A sweep whose query found no more due bookings than its limit: every booking that the query found
-- due, and that is still PENDING when the loop starts, with no accepted bid on it if it is a BIDDING
-- one, is EXPIRED after the sweep, whatever was written between the query and the loop.
pub sweep_expires_due :
    (now limit id : ℕ) (seen db : Db) (b : Booking)
    → length (due_bookings now seen.next_booking seen.bookings) ≤ limit
    → id < seen.next_booking
    → is_row (is_due now) (seen.bookings id) ≡ true
    → db.bookings id ≡ some b
    → is_pending b.status ≡ true
    → is_held id b db ≡ false
    → is_row is_expired_booking ((sweep_expired_bookings now limit seen db).1.bookings id) ≡ true
unfolding sweep_expired_bookings
sweep_expires_due now limit id seen db b fits numbered due found pending free =
    rw (take-all limit (due_bookings now seen.next_booking seen.bookings) fits) (
      sweep_reaches id (due_bookings now seen.next_booking seen.bookings) _ db b
        (due-is_listed id now seen.next_booking seen.bookings numbered due) found pending free)
