-- ===== src/Bookings/Lookups.antt =====
-- The reads that the booking services share: profiles by user, the authorizations, and the price
-- of a hire.
use easyrepair.Prelude.{
  ℕ, ◌+◌, ◌*◌, arith, Bool, false, not, ◌&&◌, ◌||◌, Option, none, some, List, [], ◌∷◌, ◌==◌,
  if◌then◌else◌, holds_id, find_first,
}
use easyrepair.Schema.{
  ClientProfile, WorkerProfile, Booking, StandardServiceItem, InspectionReport,
  BookingWorkerExclusion, is_find_other, is_inspection, is_standard,
}
use easyrepair.Commission.{calculate_platform_fee}
use easyrepair.Store.{
  Error, forbidden, not_found, client_profile_not_found, worker_profile_not_found,
  booking_not_found, not_your_booking, not_assigned_to_booking, Db, ok, err, worker_unavailable,
}
use easyrepair.Store.Actions.{Action, IsReading, pure, reads, require, reject_if, ◌>>=◌, ◌>>◌}

-- `findClientProfileByUserId`
unfoldable pub find_client_by_user : ℕ → Db → Option (ℕ × ClientProfile)
find_client_by_user user db =
    find_first (λ _ (c : ClientProfile). c.user_id == user) db.next_client db.clients

-- `findWorkerProfileByUserId`
unfoldable pub find_worker_by_user : ℕ → Db → Option (ℕ × WorkerProfile)
find_worker_by_user user db =
    find_first (λ _ (w : WorkerProfile). w.user_id == user) db.next_worker db.workers

-- The `inspectionReport` that `findBookingById` includes; `bookingId` is unique.
unfoldable pub report_of : ℕ → Db → Option (ℕ × InspectionReport)
report_of booking db =
    find_first (λ _ (r : InspectionReport). r.booking_id == booking) db.next_report db.reports

abbrev pub decided_find_other : Option (ℕ × InspectionReport) → Bool
decided_find_other none = false
decided_find_other (some (_, r)) = is_find_other r.decision_status

-- `booking.workerExclusions.some((e) => e.workerProfileId === worker)`
unfoldable pub is_excluded : (booking worker : ℕ) → List BookingWorkerExclusion → Bool
is_excluded booking worker [] = false
is_excluded booking worker (e ∷ es) =
    (e.booking_id == booking && e.worker_profile_id == worker) || is_excluded booking worker es

-- How each client request begins: the caller's profile, the booking, and that it is theirs.
unfoldable pub authorize_client : (user id : ℕ) → Action Booking
authorize_client user id = do
  profile ← require (← reads (find_client_by_user user)) (forbidden client_profile_not_found)
  booking ← require (← reads (λ db. db.bookings id)) (not_found booking_not_found)
  reject_if (not (booking.client_profile_id == profile.0)) (forbidden not_your_booking)
  pure booking

-- `_authorizeAssignedWorker`, with the caller's profile number.
unfoldable pub authorize_assigned_worker : (user id : ℕ) → Action (ℕ × Booking)
authorize_assigned_worker user id = do
  profile ← require (← reads (find_worker_by_user user)) (forbidden worker_profile_not_found)
  booking ← require (← reads (λ db. db.bookings id)) (not_found booking_not_found)
  reject_if (not (holds_id booking.worker_profile_id profile.0)) (forbidden not_assigned_to_booking)
  pure (profile.0, booking)

-- `catch (err) { if (err instanceof WorkerUnavailableError) throw other; throw err; }`
abbrev pub translate_unavailable : Error → Error → Error
translate_unavailable other worker_unavailable = other
translate_unavailable other e = e

abbrev pub if_unavailable : {A : Type 0} → Error → Action A → Action A
if_unavailable other m seen db =
    let (r, db') = m seen db in
    elim r [ ok a ↦ (ok a, db') | err e ↦ (err (translate_unavailable other e), db') ]

-- The sum of `priceSnapshot * quantity`.
unfoldable pub items_total : List StandardServiceItem → ℕ
items_total [] = 0
items_total (i ∷ is) = i.price_snapshot * i.quantity + items_total is

standard_price : List StandardServiceItem → Option ℕ → Option ℕ
unfolding items_total
standard_price [] snapshot = snapshot
standard_price (i ∷ is) snapshot = some (items_total (i ∷ is))

-- The price and the fee that a direct hire writes.
unfoldable pub hire_price : Booking → Option ℕ
unfolding standard_price
hire_price b =
    if is_standard b.lane
    then standard_price b.standard_service_items b.standard_service_price_snapshot
    else b.inspection_fee_snapshot

unfoldable pub hire_fee : Booking → Option ℕ
unfolding hire_price
hire_fee b = elim (hire_price b) [
  | none ↦ none
  | some price ↦ some (if is_inspection b.lane then 0 else calculate_platform_fee price)
]

pub authorize_client-IsReading : (user id : ℕ) → IsReading (authorize_client user id)
unfolding authorize_client
authorize_client-IsReading user id seen db = ground arith

pub authorize_assigned_worker-IsReading :
    (user id : ℕ) → IsReading (authorize_assigned_worker user id)
unfolding authorize_assigned_worker
authorize_assigned_worker-IsReading user id seen db = ground arith
