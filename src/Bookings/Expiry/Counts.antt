-- ===== src/Bookings/Expiry/Counts.antt =====
-- The counts of a sweep.
use easyrepair.Prelude.{ℕ, zero, suc, ◌+◌, ◌≤◌, ◌≡◌, ◌∙◌, List, [], ◌∷◌, arith}
use easyrepair.Store.{Db}
use easyrepair.Bookings.Transactions.{expire_if_pending}
use easyrepair.Bookings.Cancellation.{expire_booking, expire_found, expire_read}
use easyrepair.Bookings.Expiry.{
  ExpirySweepResult, due_bookings, take, length, count_outcome, sweep_candidates,
  sweep_expired_bookings,
}

take-length : (n : ℕ) (xs : List (ℕ × ℕ)) → length (take n xs) ≤ n
unfolding take length
take-length zero xs = omega arith
take-length (suc n) [] = omega arith
take-length (suc n) (x ∷ xs) = omega (arith, take-length n xs)

abbrev pub total : ExpirySweepResult → ℕ
total r = r.expired + r.skipped + r.failed

-- One expiry is counted once, and writes a row of the history where it counts as expired.
count_one :
    (j : ℕ) (r : ExpirySweepResult) (db : Db)
    → (total (count_outcome (expire_booking j db db).0 r) ≡ suc (total r))
      × ((count_outcome (expire_booking j db db).0 r).scanned ≡ r.scanned)
      × ((count_outcome (expire_booking j db db).0 r).expired + length db.history
          ≡ r.expired + length (expire_booking j db db).1.history)
unfolding expire_booking expire_found expire_read expire_if_pending length
count_one j r db = ground arith

count_all :
    (xs : List (ℕ × ℕ)) (r : ExpirySweepResult) (db : Db)
    → (total (sweep_candidates xs r db).0 ≡ total r + length xs)
      × ((sweep_candidates xs r db).0.scanned ≡ r.scanned)
      × ((sweep_candidates xs r db).0.expired + length db.history
          ≡ r.expired + length (sweep_candidates xs r db).1.history)
unfolding sweep_candidates length
count_all [] r db = ground arith
count_all ((j, e) ∷ xs) r db =
    let (one, kept, logged) = count_one j r db in
    let (all, kept', logged') =
      count_all xs (count_outcome (expire_booking j db db).0 r) (expire_booking j db db).1 in
    (omega arith, kept' ∙ kept, omega arith)

-- A sweep scans at most `limit` bookings; each scanned one is counted once, as expired, skipped or
-- failed; and as many rows are added to the status history as are counted as expired.
pub sweep_counts :
    (now limit : ℕ) (seen db : Db)
    → ((sweep_expired_bookings now limit seen db).0.scanned ≤ limit)
      × (total (sweep_expired_bookings now limit seen db).0
          ≡ (sweep_expired_bookings now limit seen db).0.scanned)
      × ((sweep_expired_bookings now limit seen db).0.expired + length db.history
          ≡ length (sweep_expired_bookings now limit seen db).1.history)
unfolding sweep_expired_bookings
sweep_counts now limit seen db =
    let xs = take limit (due_bookings now seen.next_booking seen.bookings) in
    let (all, kept, logged) =
      count_all xs (record { scanned = length xs; expired = 0; skipped = 0; failed = 0 }) db in
    (
      omega (arith, take-length limit (due_bookings now seen.next_booking seen.bookings)),
      omega arith,
      omega arith,
    )
