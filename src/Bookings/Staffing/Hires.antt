-- ===== src/Bookings/Staffing/Hires.antt =====
-- The transactions that hire, that cancel for the client, and that close an inspection.
use easyrepair.Prelude.{
  ℕ, suc, ◌≡◌, refl, inl, inr, Bool, true, false, not, Option, none, some, arith, Option-cases,
  is_some, or_else, or_other, holds_id, put, is_row,
}
use Prim.Native.String.{String}
use easyrepair.Schema.{BookingStatus, Booking, WorkerProfile, CancelledByRole, is_in_progress}
use easyrepair.Store.{Db, Keeps, is_assignable}
use easyrepair.Bookings.Transactions.{cancel_booking, assign_worker_to_booking}
use easyrepair.Bookings.Repair.{
  CloseInspectionParams, child_booking, close_and_open, rehire_inspecting_worker,
}
use easyrepair.Bids.Transactions.{accept_bid}
use easyrepair.Bookings.Consistency.{IsStaffed, IsConsistent, keep, take, add}
use easyrepair.Bookings.Staffing.{ended, row_staffed}
use easyrepair.Bookings.Cancellation.{is_client_cancellable}

-- Any row that is ACCEPTED with the worker, in place of an open one.
taken :
    (id worker : ℕ) (db : Db) {b : Booking} (b' : Booking) {p : WorkerProfile}
    → IsConsistent db
    → db.bookings id ≡ some b
    → db.workers worker ≡ some p
    → is_assignable p ≡ true
    → b'.status ≡ BookingStatus.accepted
    → b'.worker_profile_id ≡ some worker
    → IsStaffed
        (put id b' db.bookings)
        (put worker (record p { currently_working = true }) db.workers)
        db.next_booking
taken id worker db b' {p} c found there free now_accepted hired =
    take c id worker b' (record p { currently_working = true }) found there (ground arith) refl
      (ground arith) (ground arith)

pub assign-IsConsistent :
    (id worker : ℕ) (price fee : Option ℕ) (now : ℕ) (db : Db)
    → IsConsistent db
    → Keeps IsConsistent db (assign_worker_to_booking id worker price fee now db)
unfolding assign_worker_to_booking
assign-IsConsistent id worker price fee now db c = elim (Option-cases (db.bookings id)) [
  | inl missing ↦ ground arith
  | inr (b, found) ↦ elim (Option-cases (db.workers worker)) [
    | inl no_worker ↦ ground arith
    | inr (w, there) ↦ ground (
      arith,
      taken id worker db
          (record b {
            worker_profile_id = some worker;
            status = BookingStatus.accepted;
            accepted_at = some now;
            final_price = or_other price b.final_price;
            platform_fee = or_other fee b.platform_fee;
          })
          c found there,
    )
  ]
]

pub rehire-IsConsistent :
    (id worker price fee now : ℕ) (db : Db)
    → IsConsistent db
    → Keeps IsConsistent db (rehire_inspecting_worker id worker price fee now db)
unfolding rehire_inspecting_worker
rehire-IsConsistent id worker price fee now db c = elim (Option-cases (db.bookings id)) [
  | inl missing ↦ ground arith
  | inr (b, found) ↦ elim (Option-cases (db.workers worker)) [
    | inl no_worker ↦ ground arith
    | inr (w, there) ↦ ground (
      arith,
      taken id worker db
          (record b {
            worker_profile_id = some worker;
            status = BookingStatus.accepted;
            accepted_at = some now;
            final_price = some price;
            platform_fee = some fee;
          })
          c found there,
    )
  ]
]

pub accept-IsConsistent :
    (id booking worker price fee now : ℕ) (db : Db)
    → IsConsistent db
    → Keeps IsConsistent db (accept_bid id booking worker price fee now db)
unfolding accept_bid
accept-IsConsistent id booking worker price fee now db c =
    elim (Option-cases (db.bookings booking)) [
      | inl missing ↦ ground arith
      | inr (b, found) ↦ elim (Option-cases (db.workers worker)) [
        | inl no_worker ↦ ground arith
        | inr (w, there) ↦ ground (
          arith,
          taken booking worker db
              (record b {
                worker_profile_id = some worker;
                status = BookingStatus.accepted;
                accepted_at = some now;
                final_price = some price;
                platform_fee = some fee;
              })
              c found there,
        )
      ]
    ]

-- The row names this worker, or nobody.
abbrev pub is_held_by : Option ℕ → Booking → Bool
is_held_by none b = not (is_some b.worker_profile_id)
is_held_by (some w) b = holds_id b.worker_profile_id w

pub cancel-IsConsistent :
    (id : ℕ) (reason : Option String) (worker : Option ℕ) (role : CancelledByRole) (now : ℕ)
    (db : Db)
    → IsConsistent db
    → is_row (is_held_by worker) (db.bookings id) ≡ true
    → Keeps IsConsistent db (cancel_booking id is_client_cancellable reason worker role now db)
unfolding cancel_booking
cancel-IsConsistent id reason none role now db c was = elim (Option-cases (db.bookings id)) [
  | inl missing ↦ ground arith
  | inr (b, found) ↦ ground (
    arith,
    row_staffed id db c found,
    keep c id
        (record b {
          status = BookingStatus.cancelled;
          cancelled_at = some now;
          cancellation_reason = some (or_else reason "Cancelled by client");
          cancelled_by_role = some role;
        })
        found,
  )
]
cancel-IsConsistent id reason (some worker) role now db c was =
    elim (Option-cases (db.bookings id)) [
      | inl missing ↦ ground arith
      | inr (b, found) ↦ elim (Option-cases (db.workers worker)) [
        | inl no_worker ↦ ground arith
        | inr (w, there) ↦ ground (
          arith,
          row_staffed id db c found,
          ended id worker db
              (record b {
                status = BookingStatus.cancelled;
                cancelled_at = some now;
                cancellation_reason = some (or_else reason "Cancelled by client");
                cancelled_by_role = some role;
              })
              (record w { currently_working = false }) c found,
        )
      ]
    ]

closed_and_opened :
    (p : CloseInspectionParams) (now expires_at : ℕ) (db : Db) {b : Booking} (w : WorkerProfile)
    → IsConsistent db
    → db.bookings p.original_booking_id ≡ some b
    → is_in_progress b.status ≡ true
    → holds_id b.worker_profile_id p.inspecting_worker_profile_id ≡ true
    → IsStaffed
        (put db.next_booking (child_booking p now expires_at) (
          put p.original_booking_id
            (record b { status = BookingStatus.completed; completed_at = some now })
            db.bookings))
        (put p.inspecting_worker_profile_id w db.workers)
        (suc db.next_booking)
closed_and_opened p now expires_at db {b} w c found going mine =
    add
      (ended p.original_booking_id p.inspecting_worker_profile_id db
        (record b { status = BookingStatus.completed; completed_at = some now }) w c found
        (ground arith) (ground arith) refl refl)
      (child_booking p now expires_at) refl refl

-- The transaction that closes an inspection and opens its repair booking keeps the staffing right,
-- whatever it finds and whenever it runs.
pub close-IsConsistent :
    (p : CloseInspectionParams) (now expires_at : ℕ) (db : Db)
    → IsConsistent db
    → Keeps IsConsistent db (close_and_open p now expires_at db)
unfolding close_and_open
close-IsConsistent p now expires_at db c = elim (Option-cases (db.bookings p.original_booking_id)) [
  | inl missing ↦ ground arith
  | inr (b, found) ↦ elim (Option-cases (db.workers p.inspecting_worker_profile_id)) [
    | inl no_worker ↦ ground arith
    | inr (w, there) ↦ ground (
      arith,
      closed_and_opened p now expires_at db (record w { currently_working = false }) c found,
    )
  ]
]
