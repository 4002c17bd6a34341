-- ===== src/Store/Writes.antt =====
-- The tables, the requests that leave the database, and the writes that the transactions are
-- made of.
use Prim.Native.String.{String}
use easyrepair.Prelude.{
  ℕ, Bool, true, false, not, ◌&&◌, Option, none, some, List, ◌∷◌, if◌then◌else◌, Table, put,
}
use easyrepair.Schema.{
  ClientProfile, WorkerProfile, Booking, Bid, InspectionReport, BookingWorkerExclusion,
  BookingStatusHistory, BookingStatus, Review, is_active_account, is_approved, is_online,
}
use easyrepair.Store.Errors.{Result, ok, err, record_not_found, worker_unavailable}

-- A fire-and-forget call: a push notification, a queue job, a broadcast, or a chat thread.
pub data Effect : Type 0 where
  notify : (user_id : ℕ) → (event_key : String) → (booking_id : ℕ) → Effect
  notify_client_job_completed : (booking_id : ℕ) → (kind : String) → Effect
  broadcast_job : (booking_id : ℕ) → Effect
  schedule_expiry : (booking_id expires_at : ℕ) → Effect
  cancel_expiry : (booking_id : ℕ) → Effect
  ensure_conversation : (client_user_id worker_user_id : ℕ) → Effect
  match_open_jobs : (worker_profile_id : ℕ) → Effect

-- Each `next_` field bounds the numbers of the rows of its table; a new row takes it. `history`,
-- `exclusions` and `outbox` list the newest first. A review has the number of its booking.
pub record Db : Type 0 where
  pub clients : Table ClientProfile
  pub workers : Table WorkerProfile
  pub bookings : Table Booking
  pub bids : Table Bid
  pub reports : Table InspectionReport
  pub reviews : Table Review
  pub history : List BookingStatusHistory
  pub exclusions : List BookingWorkerExclusion
  pub next_client : ℕ
  pub next_worker : ℕ
  pub next_booking : ℕ
  pub next_bid : ℕ
  pub next_report : ℕ
  pub outbox : List Effect

infixl 5 ◌>>=◌
abbrev pub ◌>>=◌ : {A B : Type 0} → Result A → (A → Result B) → Result B
ok a >>= k = k a
err e >>= k = err e

-- A transaction: it throws and leaves the database alone, or returns with its writes.
abbrev pub Transaction : Type 0 → Type 0
Transaction A = Db → Result (A × Db)

-- `booking.updateMany({ where: { id, … }, data })`: `none` where the count is 0.
abbrev pub booking_update_if : ℕ → (Booking → Bool) → (Booking → Booking) → Db → Option Db
booking_update_if id test change db = elim (db.bookings id) [
  | none ↦ none
  | some b ↦ if test b then some (record db { bookings = put id (change b) db.bookings }) else none
]

-- `booking.update({ where: { id }, data })`
abbrev pub booking_update : ℕ → (Booking → Booking) → Db → Result Db
booking_update id change db = elim (db.bookings id) [
  | none ↦ err record_not_found
  | some b ↦ ok (record db { bookings = put id (change b) db.bookings })
]

-- `bookingStatusHistory.create`
abbrev pub add_history : ℕ → BookingStatus → String → Db → Db
add_history id status note db = record db {
  history = record { booking_id = id; status = status; note = note } ∷ db.history;
}

-- `workerProfile.update({ where: { id }, data: { currentlyWorking: false } })`
abbrev pub release_worker : ℕ → Db → Result Db
release_worker id db = elim (db.workers id) [
  | none ↦ err record_not_found
  | some w ↦ ok (record db { workers = put id (record w { currently_working = false }) db.workers })
]

-- The `where` under which a hire may take a worker.
abbrev pub is_assignable : WorkerProfile → Bool
is_assignable w =
    not w.currently_working
    && (is_active_account w.status
        && (is_approved w.onboarding_status
            && (is_online w.availability_status && w.profile_completed)))

-- The conditional `workerProfile.updateMany` of a hire: a count of 0 throws.
abbrev pub occupy_worker : ℕ → Db → Result Db
occupy_worker id db = elim (db.workers id) [
  | none ↦ err worker_unavailable
  | some w ↦
      if is_assignable w
      then ok (record db { workers = put id (record w { currently_working = true }) db.workers })
      else err worker_unavailable
]

-- A fire-and-forget call, after the transaction.
abbrev pub send : Effect → Db → Db
send e db = record db { outbox = e ∷ db.outbox }

-- What a transaction that throws, or returns, leaves.
abbrev pub Keeps : {A : Type 0} → (Db → Type 0) → Db → Result (A × Db) → Type 0
Keeps P db (err e) = Unit
Keeps P db (ok r) = P r.1
