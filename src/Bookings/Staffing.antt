-- ===== src/Bookings/Staffing.antt =====
-- The staffing of bookings under the transactions of bookings.repository.ts.
pub mod Hires
pub mod Steps
pub mod Requests
pub mod Cancellations
use easyrepair.Prelude.{
  ℕ, zero, suc, ℤ, ◌+◌, ◌-◌, ◌*◌, ◌/◌, ◌%◌, ◌≤◌, ◌<◌, min, max, ◌≡◌, ◌≢◌, ◌↔◌, ◌⊎◌, refl, sym,
  subst, ap, ◌∙◌, inl, inr, Bool, true, false, not, ◌&&◌, ◌||◌, Option, none, some, List, [], ◌∷◌,
  ◌++◌, map, arith, ltb, leb, ◌==◌, if◌then◌else◌, Bool-cases, Option-cases, is_some, or_else,
  or_other, holds_id, Table, put, revise, update_many, find_first, find_first-some, find_first-none,
  put_rule, is_row,
}
use Prim.Native.String.{String}
use easyrepair.Schema.{
  BookingStatus, Booking, WorkerProfile, CancelledByRole, is_accepted, is_en_route, is_arrived,
  is_pending, is_expired, is_cancelled,
}
use easyrepair.Store.{Result, ok, err, Db, Keeps}
use easyrepair.Bookings.Transactions.{
  cancel_booking, mark_en_route, mark_arrived, mark_in_progress, complete_booking_lifecycle,
  worker_cancel_booking, reopen_after_worker_cancellation, relist_booking, expire_if_pending,
}
use easyrepair.Bookings.Consistency.{
  is_active, is_open, is_well_staffed, is_staffed, working_on, IsStaffed, IsConsistent, keep,
  finish, mark,
}

-- The row at `id` before the write.
pub row_staffed :
    (id : ℕ) (db : Db) {b : Booking}
    → IsConsistent db
    → db.bookings id ≡ some b
    → is_well_staffed b ≡ true
row_staffed id db c found = ground (arith, c.staffed id)

pub lifecycle-IsConsistent :
    (id now : ℕ) (db : Db)
    → IsConsistent db
    → Keeps IsConsistent db (mark_en_route id now db)
      × Keeps IsConsistent db (mark_arrived id now db)
      × Keeps IsConsistent db (mark_in_progress id now db)
unfolding mark_en_route mark_arrived mark_in_progress
lifecycle-IsConsistent id now db c = elim (Option-cases (db.bookings id)) [
  | inl missing ↦ ground arith
  | inr (b, found) ↦ ground (
    arith,
    row_staffed id db c found,
    keep c id (record b { status = BookingStatus.en_route; en_route_at = some now }) found,
    keep c id (record b { status = BookingStatus.arrived; arrived_at = some now }) found,
    keep c id (record b { status = BookingStatus.in_progress; started_at = some now }) found,
  )
]

pub expire-IsConsistent :
    (id : ℕ) (db : Db) → IsConsistent db → Keeps IsConsistent db (expire_if_pending id db)
unfolding expire_if_pending
expire-IsConsistent id db c = elim (Option-cases (db.bookings id)) [
  | inl missing ↦ ground arith
  | inr (b, found) ↦ ground (
    arith,
    row_staffed id db c found,
    keep c id (record b { status = BookingStatus.expired }) found,
  )
]

pub relist-IsConsistent :
    (id now expires_at : ℕ) (db : Db)
    → IsConsistent db
    → is_row (λ (b : Booking). is_expired b.status) (db.bookings id) ≡ true
    → Keeps IsConsistent db (relist_booking id now expires_at db)
unfolding relist_booking
relist-IsConsistent id now expires_at db c was = elim (Option-cases (db.bookings id)) [
  | inl missing ↦ ground arith
  | inr (b, found) ↦ ground (
    arith,
    row_staffed id db c found,
    keep c id
        (record b {
          status = BookingStatus.pending;
          live_started_at = some now;
          expires_at = some expires_at;
          relisted_at = some now;
        })
        found,
  )
]

pub reopen-IsConsistent :
    (id worker : ℕ) (reason : String) (now expires_at : ℕ) (db : Db)
    → IsConsistent db
    → is_row (λ (b : Booking). is_cancelled b.status) (db.bookings id) ≡ true
    → Keeps IsConsistent db (reopen_after_worker_cancellation id worker reason now expires_at db)
unfolding reopen_after_worker_cancellation
reopen-IsConsistent id worker reason now expires_at db c was =
    elim (Option-cases (db.bookings id)) [
      | inl missing ↦ ground arith
      | inr (b, found) ↦ ground (
        arith,
        row_staffed id db c found,
        keep c id
            (record b {
              worker_profile_id = none;
              status = BookingStatus.pending;
              live_started_at = some now;
              expires_at = some expires_at;
            })
            found,
      )
    ]

-- The end of a job by its worker's release, for any new row that is over.
pub ended :
    (id worker : ℕ) (db : Db) {b : Booking} (b' : Booking) (p : WorkerProfile)
    → IsConsistent db
    → db.bookings id ≡ some b
    → is_active b.status ≡ true
    → b.worker_profile_id ≡ some worker
    → is_active b'.status ≡ false
    → is_open b'.status ≡ false
    → IsStaffed (put id b' db.bookings) (put worker p db.workers) db.next_booking
ended id worker db {b} b' p c found active worker_of over closed =
    finish c id worker b' p found (ground arith) (ground arith) (ground arith)

-- A booking of this worker that is under way.
abbrev pub is_job_of : ℕ → Booking → Bool
is_job_of worker b = is_active b.status && holds_id b.worker_profile_id worker

pub complete-IsConsistent :
    (id worker : ℕ) (from : BookingStatus → Bool) (now : ℕ) (db : Db)
    → IsConsistent db
    → ((s : BookingStatus) → from s ≡ true → is_active s ≡ true)
    → is_row (λ (b : Booking). holds_id b.worker_profile_id worker) (db.bookings id) ≡ true
    → Keeps IsConsistent db (complete_booking_lifecycle id worker from now db)
unfolding complete_booking_lifecycle
complete-IsConsistent id worker from now db c only was = elim (Option-cases (db.bookings id)) [
  | inl missing ↦ ground arith
  | inr (b, found) ↦ elim (Option-cases (db.workers worker)) [
    | inl no_worker ↦ ground arith
    | inr (w, there) ↦ ground (
      arith,
      only b.status,
      ended id worker db (record b { status = BookingStatus.completed; completed_at = some now })
          (record w { currently_working = false }) c found,
    )
  ]
]

pub worker_cancel-IsConsistent :
    (id worker : ℕ) (reason : String) (now : ℕ) (db : Db)
    → IsConsistent db
    → is_row (is_job_of worker) (db.bookings id) ≡ true
    → Keeps IsConsistent db (worker_cancel_booking id worker reason now db)
unfolding worker_cancel_booking
worker_cancel-IsConsistent id worker reason now db c was = elim (Option-cases (db.bookings id)) [
  | inl missing ↦ ground arith
  | inr (b, found) ↦ elim (Option-cases (db.workers worker)) [
    | inl no_worker ↦ ground arith
    | inr (w, there) ↦ ground (
      arith,
      ended id worker db
          (record b {
            status = BookingStatus.cancelled;
            cancelled_at = some now;
            cancellation_reason = some reason;
            cancelled_by_role = some CancelledByRole.worker;
          })
          (record w { currently_working = false }) c found,
    )
  ]
]
