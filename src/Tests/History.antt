-- ===== src/Tests/History.antt =====
-- History rows that the transactions append on the sample databases.
use easyrepair.Prelude.{none}
use easyrepair.Schema.{CancelledByRole, is_in_progress}
use easyrepair.Bookings.Transactions.{
  cancel_booking, assign_worker_to_booking, mark_en_route, mark_arrived, mark_in_progress,
  complete_booking_lifecycle, worker_cancel_booking, reopen_after_worker_cancellation,
  relist_booking, expire_if_pending,
}
use easyrepair.Bids.Transactions.{accept_bid}
use easyrepair.Bookings.History.{Logs, transactions-Logs}
use easyrepair.Tests.Sample.{inspection_db}

transactions-Logs_example :
    Logs 1 inspection_db (mark_en_route 1 2000 inspection_db)
    × Logs 1 inspection_db (mark_arrived 1 2000 inspection_db)
    × Logs 1 inspection_db (mark_in_progress 1 2000 inspection_db)
    × Logs 1 inspection_db (complete_booking_lifecycle 1 1 is_in_progress 2000 inspection_db)
    × Logs 1 inspection_db (expire_if_pending 1 inspection_db)
    × Logs 1 inspection_db (assign_worker_to_booking 1 1 none none 2000 inspection_db)
    × Logs 1 inspection_db (accept_bid 1 1 1 200000 36000 2000 inspection_db)
    × Logs 1 inspection_db
        (cancel_booking 1 is_in_progress none none CancelledByRole.client 2000 inspection_db)
    × Logs 1 inspection_db (worker_cancel_booking 1 1 "Sick" 2000 inspection_db)
    × Logs 1 inspection_db (reopen_after_worker_cancellation 1 1 "Sick" 2000 9000 inspection_db)
    × Logs 1 inspection_db (relist_booking 1 2000 9000 inspection_db)
transactions-Logs_example =
    transactions-Logs 1 1 2000 1 200000 36000 none none is_in_progress "Sick" none none
      CancelledByRole.client 9000 inspection_db
