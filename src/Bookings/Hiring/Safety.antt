-- ===== src/Bookings/Hiring/Safety.antt =====
-- What a direct hire does, whatever happened between its reads and its transaction.
use easyrepair.Prelude.{
  is_row, ℕ, ◌≡◌, ◌⊎◌, refl, inl, inr, Bool, true, false, ◌&&◌, Option, arith, Bool-cases,
  Option-cases, holds_id,
}
use easyrepair.Schema.{Booking, WorkerProfile, is_accepted}
use easyrepair.Store.{Result, ok, err, Db, is_assignable}
use easyrepair.Store.Actions.{IsReading, reading_rule}
use easyrepair.Bookings.Transactions.{is_hireable, assign_worker_to_booking}
use easyrepair.Bookings.Lookups.{authorize_client, authorize_client-IsReading, hire_price, hire_fee}
use easyrepair.Bookings.Hiring.{check_hire, commit_hire, hire_for, assign_worker}

-- ACCEPTED with this worker.
abbrev pub is_hired : ℕ → Booking → Bool
is_hired worker b = is_accepted b.status && holds_id b.worker_profile_id worker

-- A hire took place: the booking was open and unassigned and the worker assignable, and now the
-- booking is ACCEPTED with this worker, who is busy.
pub record NewHire (id worker : ℕ) (db db' : Db) : Type 0 where
  pub was_hireable : is_row is_hireable (db.bookings id) ≡ true
  pub was_assignable : is_row is_assignable (db.workers worker) ≡ true
  pub hired : is_row (is_hired worker) (db'.bookings id) ≡ true
  pub busy : is_row (λ (w : WorkerProfile). w.currently_working) (db'.workers worker) ≡ true

-- The three ways in which the transaction can end.
abbrev AssignOutcome : (id worker : ℕ) → Db → Result (Bool × Db) → Type 0
AssignOutcome id worker db (err e) = Unit
AssignOutcome id worker db (ok (false, db')) =
    (db' ≡ db) × (is_row is_hireable (db.bookings id) ≡ false)
AssignOutcome id worker db (ok (true, db')) = NewHire id worker db db'

assign_outcome :
    (id worker : ℕ) (price fee : Option ℕ) (now : ℕ) (db : Db)
    → AssignOutcome id worker db (assign_worker_to_booking id worker price fee now db)
unfolding assign_worker_to_booking
assign_outcome id worker price fee now db = elim (Option-cases (db.bookings id)) [
  | inl missing ↦ ground arith
  | inr (b, found) ↦ ground arith
]

-- A request that throws has written nothing; one that returns gives a booking of this worker, and
-- either wrote nothing or made the hire.
abbrev pub HireOutcome : (id worker : ℕ) → Db → Result Booking × Db → Type 0
HireOutcome id worker db (err e, db') = db' ≡ db
HireOutcome id worker db (ok b, db') =
    (holds_id b.worker_profile_id worker ≡ true) × ((db' ≡ db) ⊎ NewHire id worker db db')

pub check_hire-IsReading :
    (stale_ms now id worker : ℕ) (b : Booking) → IsReading (check_hire stale_ms now id worker b)
unfolding check_hire
check_hire-IsReading stale_ms now id worker b seen db = ground arith

commit_hire_outcome :
    (now user id worker : ℕ) (b : Booking) (w : WorkerProfile) (seen db : Db)
    → HireOutcome id worker db (commit_hire now user id worker b w seen db)
unfolding commit_hire
commit_hire_outcome now user id worker b w seen db =
    ground (arith, assign_outcome id worker (hire_price b) (hire_fee b) now db)

hire_for_outcome :
    (stale_ms now user id worker : ℕ) (b : Booking) (seen db : Db)
    → HireOutcome id worker db (hire_for stale_ms now user id worker b seen db)
unfolding hire_for
hire_for_outcome stale_ms now user id worker b seen db =
    elim (Bool-cases (holds_id b.worker_profile_id worker)) [
      | inl same ↦ rw same (same, inl refl)
      | inr other ↦ rw other (
          reading_rule (HireOutcome id worker db) (check_hire stale_ms now id worker b)
            (commit_hire now user id worker b) seen db
            (check_hire-IsReading stale_ms now id worker b) (λ e. refl)
            (λ w found. commit_hire_outcome now user id worker b w seen db))
    ]

-- Whatever the request read before, and whatever was written in between: `assignWorker` that throws
-- writes nothing; one that returns gives a booking of the requested worker, and either wrote
-- nothing or made a hire, on a booking that was PENDING and unassigned, of a worker who was
-- assignable and is busy afterwards.
pub assign_worker_outcome :
    (stale_ms now user id worker : ℕ) (seen db : Db)
    → HireOutcome id worker db (assign_worker stale_ms now user id worker seen db)
unfolding assign_worker
assign_worker_outcome stale_ms now user id worker seen db =
    reading_rule (HireOutcome id worker db) (authorize_client user id)
      (hire_for stale_ms now user id worker) seen db (authorize_client-IsReading user id)
      (λ e. refl) (λ b found. hire_for_outcome stale_ms now user id worker b seen db)

unchanged_unless_hireable :
    (id worker : ℕ) (db : Db) (r : Result Booking × Db)
    → HireOutcome id worker db r
    → is_row is_hireable (db.bookings id) ≡ false
    → r.1 ≡ db
unchanged_unless_hireable id worker db (err e, db') h closed = h
unchanged_unless_hireable id worker db (ok b, db') (_, inl same) closed = same
unchanged_unless_hireable id worker db (ok b, db') (_, inr hire) closed =
    absurd (ground (arith, hire.was_hireable))

pub hired_not_hireable :
    (worker : ℕ) (o : Option Booking)
    → is_row (is_hired worker) o ≡ true
    → is_row is_hireable o ≡ false
hired_not_hireable worker o h = ground arith

-- Once a worker has been hired for a booking, any other `assignWorker` on it, of any client and for
-- any worker, writes nothing, however stale the rows that it had read.
pub racing_hires :
    (stale_ms now user id first second : ℕ) (seen before db : Db)
    → NewHire id first before db
    → (assign_worker stale_ms now user id second seen db).1 ≡ db
racing_hires stale_ms now user id first second seen before db hire =
    unchanged_unless_hireable id second db (assign_worker stale_ms now user id second seen db)
      (assign_worker_outcome stale_ms now user id second seen db)
      (hired_not_hireable first (db.bookings id) hire.hired)
