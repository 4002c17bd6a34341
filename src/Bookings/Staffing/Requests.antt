-- ===== src/Bookings/Staffing/Requests.antt =====
-- The staffing under the requests of the booking service; `m db db` is a run in which nobody writes
-- between the reads and the transaction.
use easyrepair.Prelude.{ℕ, ◌≡◌, inl, inr, true, some, arith, Bool-cases, holds_id, is_row}
use Prim.Native.String.{String}
use easyrepair.Schema.{
  Booking, BookingStatus, is_in_progress, is_completed, is_accepted, is_en_route, is_arrived,
}
use easyrepair.Store.{Db}
use easyrepair.Store.Actions.{IsReading, pure, ◌>>◌}
use easyrepair.Bookings.Transactions
use easyrepair.Bookings.Transactions.{complete_booking_lifecycle}
use easyrepair.Bookings.Hiring.{check_hire, commit_hire, hire_for, assign_worker}
use easyrepair.Bookings.Hiring.Safety.{check_hire-IsReading}
use easyrepair.Bookings.Consistency.{is_active, IsConsistent}
use easyrepair.Bookings.Progress.{
  notify_client, announce_completion, mark_on_my_way, mark_arrived, start_job, is_completable,
  go_on_my_way, arrive, start, complete_checked, check_inspection_done, complete_authorized,
  complete_job,
}
use easyrepair.Bookings.Cancellation.{expire_read, expire_found, expire_booking}
use easyrepair.Bookings.Staffing.{
  lifecycle-IsConsistent, expire-IsConsistent, complete-IsConsistent,
}
use easyrepair.Bookings.Staffing.Steps.{
  commit_hire-IsConsistent, advance-IsConsistent, notify_client-IsConsistent,
  announce_completion-IsConsistent, client_request, worker_request,
}
use easyrepair.Store.Rules.{after_reading, if_rule}

hire_for-IsConsistent :
    (stale_ms now user id worker : ℕ) (b : Booking) (seen db : Db)
    → IsConsistent db
    → IsConsistent (hire_for stale_ms now user id worker b seen db).1
unfolding hire_for
hire_for-IsConsistent stale_ms now user id worker b seen db c =
    elim (Bool-cases (holds_id b.worker_profile_id worker)) [
      | inl same ↦ rw same c
      | inr other ↦ rw other (
          after_reading IsConsistent (check_hire stale_ms now id worker b)
            (commit_hire now user id worker b) seen db
            (check_hire-IsReading stale_ms now id worker b) c
            (λ w found. commit_hire-IsConsistent now user id worker b w seen db c))
    ]

pub assign_worker-IsConsistent :
    (stale_ms now user id worker : ℕ) (db : Db)
    → IsConsistent db
    → IsConsistent (assign_worker stale_ms now user id worker db db).1
unfolding assign_worker
assign_worker-IsConsistent stale_ms now user id worker db c =
    client_request (hire_for stale_ms now user id worker) user id db c
      (λ b found. hire_for-IsConsistent stale_ms now user id worker b db db c)

moved-IsConsistent :
    (now id : ℕ) (r : ℕ × Booking) (db : Db)
    → IsConsistent db
    → IsConsistent (go_on_my_way now id r db db).1
      × IsConsistent (arrive now id r db db).1
      × IsConsistent (start now id r db db).1
unfolding go_on_my_way arrive start
moved-IsConsistent now id r db c =
    let kept = lifecycle-IsConsistent id now db c in
    let quiet = λ (key : String) (b : Booking) (d : Db). notify_client-IsConsistent key id b db d in
    (
      advance-IsConsistent is_en_route is_accepted (Transactions.mark_en_route id now)
          (notify_client "booking.status.en_route" id) id r.1 db db c (λ _. kept.0)
          (quiet "booking.status.en_route"),
      advance-IsConsistent is_arrived is_en_route (Transactions.mark_arrived id now)
          (notify_client "booking.status.arrived" id) id r.1 db db c (λ _. kept.1)
          (quiet "booking.status.arrived"),
      advance-IsConsistent is_in_progress is_arrived (Transactions.mark_in_progress id now)
          (notify_client "booking.status.in_progress" id) id r.1 db db c (λ _. kept.2)
          (quiet "booking.status.in_progress"),
    )

pub progress-IsConsistent :
    (now user id : ℕ) (db : Db)
    → IsConsistent db
    → IsConsistent (mark_on_my_way now user id db db).1
      × IsConsistent (mark_arrived now user id db db).1
      × IsConsistent (start_job now user id db db).1
unfolding mark_on_my_way mark_arrived start_job
progress-IsConsistent now user id db c = (
  worker_request (go_on_my_way now id) user id db c
      (λ r found mine. (moved-IsConsistent now id r db c).0),
  worker_request (arrive now id) user id db c
      (λ r found mine. (moved-IsConsistent now id r db c).1),
  worker_request (start now id) user id db c (λ r found mine. (moved-IsConsistent now id r db c).2),
)

completable_active : (s : BookingStatus) → is_completable s ≡ true → is_active s ≡ true
completable_active s h = ground arith

in_progress_active : (s : BookingStatus) → is_in_progress s ≡ true → is_active s ≡ true
in_progress_active s h = ground arith

pub check_inspection_done-IsReading :
    (id : ℕ) (b : Booking) → IsReading (check_inspection_done id b)
unfolding check_inspection_done
check_inspection_done-IsReading id b seen db = ground arith

complete_checked-IsConsistent :
    (now id worker : ℕ) (b : Booking) (db : Db)
    → IsConsistent db
    → is_row (λ (b : Booking). holds_id b.worker_profile_id worker) (db.bookings id) ≡ true
    → IsConsistent (complete_checked now id worker b db db).1
unfolding complete_checked
complete_checked-IsConsistent now id worker b db c mine =
    advance-IsConsistent is_completed is_completable
      (complete_booking_lifecycle id worker is_completable now)
      (announce_completion id "NORMAL" "booking.completed") id b db db c
      (λ fits. complete-IsConsistent id worker is_completable now db c completable_active mine)
      (λ b' d. announce_completion-IsConsistent id "NORMAL" "booking.completed" b' db d)

complete_authorized-IsConsistent :
    (now id : ℕ) (r : ℕ × Booking) (db : Db)
    → IsConsistent db
    → db.bookings id ≡ some r.1
    → holds_id r.1.worker_profile_id r.0 ≡ true
    → IsConsistent (complete_authorized now id r db db).1
unfolding complete_authorized
complete_authorized-IsConsistent now id (worker, b) db c found mine =
    if_rule IsConsistent db db (is_completed b.status) (pure b)
      (check_inspection_done id b >> complete_checked now id worker b) (λ _. c)
      (λ _.
        after_reading IsConsistent (check_inspection_done id b)
          (λ _. complete_checked now id worker b) db db (check_inspection_done-IsReading id b) c
          (λ u checked. complete_checked-IsConsistent now id worker b db c (rw found mine)))

pub complete_job-IsConsistent :
    (now user id : ℕ) (db : Db) → IsConsistent db → IsConsistent (complete_job now user id db db).1
unfolding complete_job
complete_job-IsConsistent now user id db c =
    worker_request (complete_authorized now id) user id db c
      (λ r found mine. complete_authorized-IsConsistent now id r db c found mine)

pub expire_booking-IsConsistent :
    (id : ℕ) (seen db : Db) → IsConsistent db → IsConsistent (expire_booking id seen db).1
unfolding expire_booking expire_found expire_read
expire_booking-IsConsistent id seen db c = ground (arith, expire-IsConsistent id db c)
