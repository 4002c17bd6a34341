-- ===== src/Bookings/Expiry.antt =====
-- `sweepExpiredBookings` of backend/src/modules/bookings/booking-expiry.service.ts. Bookings that
-- expire at the same instant are taken in the order of their numbers, as the query leaves it open.
pub mod Sweep
pub mod Outcome
pub mod Counts
use easyrepair.Prelude.{
  ℕ, zero, suc, ◌+◌, Bool, ◌&&◌, Option, none, some, List, [], ◌∷◌, leb, if◌then◌else◌, Table,
}
use easyrepair.Schema.{Booking, is_pending}
use easyrepair.Store.{Db, Result, ok, err}
use easyrepair.Bookings.Cancellation.{ExpireBookingOutcome, expired, skipped, expire_booking}

-- EXPIRY_SWEEP_BATCH_SIZE
abbrev pub expiry_sweep_batch_size : ℕ
expiry_sweep_batch_size = 200

pub record ExpirySweepResult : Type 0 where
  pub scanned : ℕ
  pub expired : ℕ
  pub skipped : ℕ
  pub failed : ℕ

-- A booking's number among those that expire no later, with the instants.
unfoldable pub insert_by_expiry : (id expires_at : ℕ) → List (ℕ × ℕ) → List (ℕ × ℕ)
insert_by_expiry id e [] = (id, e) ∷ []
insert_by_expiry id e ((j, f) ∷ rest) =
    let later = insert_by_expiry id e rest in
    if leb f e then (j, f) ∷ later else (id, e) ∷ (j, f) ∷ rest

-- `expiresAt: { not: null, lte: now }`, on a booking that is PENDING or not.
unfoldable pub add_due : (now id : ℕ) → (expires_at : Option ℕ) → Bool → List (ℕ × ℕ) → List (ℕ × ℕ)
unfolding insert_by_expiry
add_due now id none pending rest = rest
add_due now id (some e) pending rest =
    if pending && leb e now then insert_by_expiry id e rest else rest

unfoldable pub add_booking : (now id : ℕ) → Option Booking → List (ℕ × ℕ) → List (ℕ × ℕ)
unfolding add_due
add_booking now id none rest = rest
add_booking now id (some b) rest = add_due now id b.expires_at (is_pending b.status) rest

-- The due bookings below `n`, oldest first.
unfoldable pub due_bookings : (now n : ℕ) → Table Booking → List (ℕ × ℕ)
unfolding add_booking
due_bookings now zero t = []
due_bookings now (suc n) t = add_booking now n (t n) (due_bookings now n t)

unfoldable pub take {ℓ} : {A : Type ℓ} → ℕ → List A → List A
take zero xs = []
take (suc n) [] = []
take (suc n) (x ∷ xs) = x ∷ take n xs

unfoldable pub length {ℓ} : {A : Type ℓ} → List A → ℕ
length [] = 0
length (x ∷ xs) = suc (length xs)

abbrev pub count_outcome : Result ExpireBookingOutcome → ExpirySweepResult → ExpirySweepResult
count_outcome (ok ExpireBookingOutcome.expired) r = record r { expired = r.expired + 1 }
count_outcome (ok ExpireBookingOutcome.skipped) r = record r { skipped = r.skipped + 1 }
count_outcome (err e) r = record r { failed = r.failed + 1 }

-- The loop: each expiry reads what the ones before it have left.
unfoldable pub sweep_candidates : List (ℕ × ℕ) → ExpirySweepResult → Db → ExpirySweepResult × Db
unfolding expire_booking
sweep_candidates [] result db = (result, db)
sweep_candidates ((id, e) ∷ candidates) result db =
    sweep_candidates candidates (count_outcome (expire_booking id db db).0 result)
      (expire_booking id db db).1

-- `sweepExpiredBookings`: the query sees `seen`, and the loop starts on `db`.
unfoldable pub sweep_expired_bookings : (now limit : ℕ) → (seen db : Db) → ExpirySweepResult × Db
unfolding sweep_candidates due_bookings take length
sweep_expired_bookings now limit seen db =
    let candidates = take limit (due_bookings now seen.next_booking seen.bookings) in
    sweep_candidates candidates
      (record { scanned = length candidates; expired = 0; skipped = 0; failed = 0 }) db
