-- ===== src/Bookings/Staffing/Cancellations.antt =====
-- The staffing under the cancellations of the booking service, its reopening and its relisting;
-- `m db db` is a run in which nobody writes between the reads and the transaction.
use easyrepair.Prelude.{
  ℕ, ◌+◌, ◌≡◌, refl, inl, inr, Bool, true, false, not, Option, some, arith, Bool-cases, or_else,
  holds_id,
}
use Prim.Native.String.{String}
use easyrepair.Schema.{Booking, BookingStatus, CancelledByRole, is_cancelled}
use easyrepair.Store.{Db, bad_request, wrong_status, not_reopenable, no_previous_worker}
use easyrepair.Store.Actions.{
  reject_if, reload_booking, reload_booking-IsReading, transact, pure, require, ◌>>=◌, ◌>>◌,
}
use easyrepair.Bookings.Transactions
use easyrepair.Bookings.Transactions.{complete_booking_lifecycle}
use easyrepair.Bookings.Consistency.{is_active, IsConsistent}
use easyrepair.Bookings.Cancellation.{
  is_client_cancellable, settle_cancel, commit_cancel, commit_reopen, cancel_authorized,
  cancel_booking, is_worker_cancellable, worker_cancel_authorized, commit_cancel, commit_reopen,
  cancel_authorized, worker_cancel_booking, is_cancelled_by_worker, reopen_authorized,
  reopen_after_worker_cancellation, relist_authorized, relist_booking, booking_expiry_ms,
}
use easyrepair.Bookings.Staffing.{
  relist-IsConsistent, reopen-IsConsistent, worker_cancel-IsConsistent,
}
use easyrepair.Bookings.Staffing.Hires.{cancel-IsConsistent, is_held_by}
use easyrepair.Bookings.Staffing.Steps.{client_request, worker_request}
use easyrepair.Store.Rules.{
  bind_rule, transact_rule, after_reading, if_rule, reject_rule, require_rule,
}

settle_cancel-IsConsistent :
    (id : ℕ) (changed : Bool) (b : Booking) (seen d : Db)
    → IsConsistent d
    → IsConsistent (settle_cancel id changed b seen d).1
unfolding settle_cancel
settle_cancel-IsConsistent id true b seen d c = ground arith
settle_cancel-IsConsistent id false b seen d c = ground arith

held : (b : Booking) (w : Option ℕ) → b.worker_profile_id ≡ w → is_held_by w b ≡ true
held b w e = ground arith

commit_cancel-IsConsistent :
    (now id : ℕ) (reason : String) (b : Booking) (db : Db)
    → IsConsistent db
    → db.bookings id ≡ some b
    → IsConsistent (commit_cancel now id reason b db db).1
unfolding commit_cancel
commit_cancel-IsConsistent now id reason b db c found =
    let write =
      Transactions.cancel_booking id is_client_cancellable (some reason) b.worker_profile_id
        CancelledByRole.client now in
    bind_rule IsConsistent (transact write)
      (λ changed. reload_booking id >>= settle_cancel id changed) db db
      (transact_rule IsConsistent write db db c (
        cancel-IsConsistent id (some reason) b.worker_profile_id CancelledByRole.client now db c
          (rw found (held b b.worker_profile_id refl))))
      (λ changed d same c'.
        after_reading IsConsistent (reload_booking id) (settle_cancel id changed) db d
          (reload_booking-IsReading id) c'
          (λ b' found'. settle_cancel-IsConsistent id changed b' db d c'))

cancel_authorized-IsConsistent :
    (now id : ℕ) (reason : String) (b : Booking) (db : Db)
    → IsConsistent db
    → db.bookings id ≡ some b
    → IsConsistent (cancel_authorized now id reason b db db).1
unfolding cancel_authorized
cancel_authorized-IsConsistent now id reason b db c found =
    if_rule IsConsistent db db (is_cancelled b.status) (pure b)
      (reject_if (not (is_client_cancellable b.status)) (bad_request wrong_status)
        >> commit_cancel now id reason b)
      (λ _. c)
      (λ _.
        reject_rule IsConsistent db db (not (is_client_cancellable b.status))
          (bad_request wrong_status) (commit_cancel now id reason b) c
          (λ _. commit_cancel-IsConsistent now id reason b db c found))

pub cancel_booking-IsConsistent :
    (now user id : ℕ) (reason : String) (db : Db)
    → IsConsistent db
    → IsConsistent (cancel_booking now user id reason db db).1
unfolding cancel_booking
cancel_booking-IsConsistent now user id reason db c =
    client_request (cancel_authorized now id reason) user id db c
      (λ b found. cancel_authorized-IsConsistent now id reason b db c found)

cancellable_active : (s : BookingStatus) → is_worker_cancellable s ≡ true → is_active s ≡ true
cancellable_active s h = ground arith

worker_cancel_authorized-IsConsistent :
    (now id : ℕ) (reason : String) (r : ℕ × Booking) (db : Db)
    → IsConsistent db
    → db.bookings id ≡ some r.1
    → holds_id r.1.worker_profile_id r.0 ≡ true
    → IsConsistent (worker_cancel_authorized now id reason r db db).1
unfolding worker_cancel_authorized
worker_cancel_authorized-IsConsistent now id reason (worker, b) db c found mine =
    elim (Bool-cases (is_worker_cancellable b.status)) [
      | inr other ↦ rw other c
      | inl fits ↦ ground (
        arith,
        worker_cancel-IsConsistent id worker reason now db c
            (rw (found, cancellable_active b.status fits) mine),
      )
    ]

pub worker_cancel_booking-IsConsistent :
    (now user id : ℕ) (reason : String) (db : Db)
    → IsConsistent db
    → IsConsistent (worker_cancel_booking now user id reason db db).1
unfolding worker_cancel_booking
worker_cancel_booking-IsConsistent now user id reason db c =
    worker_request (worker_cancel_authorized now id reason) user id db c
      (λ r found mine. worker_cancel_authorized-IsConsistent now id reason r db c found mine)

commit_reopen-IsConsistent :
    (now id worker : ℕ) (b : Booking) (db : Db)
    → IsConsistent db
    → db.bookings id ≡ some b
    → is_cancelled b.status ≡ true
    → IsConsistent (commit_reopen now id b worker db db).1
unfolding commit_reopen
commit_reopen-IsConsistent now id worker b db c found was = ground (
  arith,
  reopen-IsConsistent id worker (or_else b.cancellation_reason "Worker cancelled") now
      (now + booking_expiry_ms) db c (rw found was),
)

reopenable_cancelled :
    (b : Booking) → not (is_cancelled_by_worker b) ≡ false → is_cancelled b.status ≡ true
reopenable_cancelled b h = ground arith

reopen_authorized-IsConsistent :
    (now id : ℕ) (b : Booking) (db : Db)
    → IsConsistent db
    → db.bookings id ≡ some b
    → IsConsistent (reopen_authorized now id b db db).1
unfolding reopen_authorized
reopen_authorized-IsConsistent now id b db c found =
    reject_rule IsConsistent db db (not (is_cancelled_by_worker b)) (bad_request not_reopenable)
      (require b.worker_profile_id (bad_request no_previous_worker) >>= commit_reopen now id b) c
      (λ may.
        require_rule IsConsistent db db b.worker_profile_id (bad_request no_previous_worker)
          (commit_reopen now id b) c
          (λ w e. commit_reopen-IsConsistent now id w b db c found (reopenable_cancelled b may)))

pub reopen_after_worker_cancellation-IsConsistent :
    (now user id : ℕ) (db : Db)
    → IsConsistent db
    → IsConsistent (reopen_after_worker_cancellation now user id db db).1
unfolding reopen_after_worker_cancellation
reopen_after_worker_cancellation-IsConsistent now user id db c =
    client_request (reopen_authorized now id) user id db c
      (λ b found. reopen_authorized-IsConsistent now id b db c found)

relist_authorized-IsConsistent :
    (now user id : ℕ) (b : Booking) (db : Db)
    → IsConsistent db
    → db.bookings id ≡ some b
    → IsConsistent (relist_authorized now user id b db db).1
unfolding relist_authorized
relist_authorized-IsConsistent now user id b db c found =
    ground (arith, relist-IsConsistent id now (now + booking_expiry_ms) db c)

pub relist_booking-IsConsistent :
    (now user id : ℕ) (db : Db)
    → IsConsistent db
    → IsConsistent (relist_booking now user id db db).1
unfolding relist_booking
relist_booking-IsConsistent now user id db c =
    client_request (relist_authorized now user id) user id db c
      (λ b found. relist_authorized-IsConsistent now user id b db c found)
