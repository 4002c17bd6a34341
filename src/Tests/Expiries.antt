-- ===== src/Tests/Expiries.antt =====
-- A sweep of the two open jobs of the sample, an hour after their listing ended.
use easyrepair.Prelude.{◌+◌, ◌≤◌, ◌≡◌, ◌⊎◌, refl, true, none, arith, is_row, find_first}
use easyrepair.Schema.{BookingStatus, BookingLane}
use easyrepair.Bookings.Cancellation.{find_accepted_bid}
use easyrepair.Bookings.Expiry.{
  due_bookings, add_booking, add_due, insert_by_expiry, length, sweep_expired_bookings,
  expiry_sweep_batch_size,
}
use easyrepair.Bookings.Expiry.Sweep.{is_expired_booking, sweep_expires_due}
use easyrepair.Bookings.Expiry.Outcome.{Expires, sweep_writes}
use easyrepair.Bookings.Expiry.Counts.{total, sweep_counts}
use easyrepair.Tests.Sample.{open_db, booking}

few : length (due_bookings 4500000 3 open_db.bookings) ≤ expiry_sweep_batch_size
unfolding length due_bookings add_booking add_due insert_by_expiry
few = omega arith

sweep_expires_due_example :
    is_row is_expired_booking
      ((sweep_expired_bookings 4500000 expiry_sweep_batch_size open_db open_db).1.bookings 2)
    ≡ true
unfolding find_accepted_bid find_first
sweep_expires_due_example =
    sweep_expires_due 4500000 expiry_sweep_batch_size 2 open_db open_db
      (booking BookingLane.bidding BookingStatus.pending none) few (omega arith) refl refl refl refl

sweep_writes_example :
    ((sweep_expired_bookings 4500000 1 open_db open_db).1.bookings 2 ≡ open_db.bookings 2)
    ⊎ Expires 4500000 2 open_db open_db (sweep_expired_bookings 4500000 1 open_db open_db).1
sweep_writes_example = sweep_writes 2 4500000 1 open_db open_db

sweep_counts_example :
    ((sweep_expired_bookings 4500000 1 open_db open_db).0.scanned ≤ 1)
    × (total (sweep_expired_bookings 4500000 1 open_db open_db).0
        ≡ (sweep_expired_bookings 4500000 1 open_db open_db).0.scanned)
    × ((sweep_expired_bookings 4500000 1 open_db open_db).0.expired + length open_db.history
        ≡ length (sweep_expired_bookings 4500000 1 open_db open_db).1.history)
sweep_counts_example = sweep_counts 4500000 1 open_db open_db
