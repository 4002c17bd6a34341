-- ===== src/Intake/Creation.antt =====
-- `createBooking` of backend/src/modules/bookings/bookings.service.ts and bookings.repository.ts.
-- `seen` is what the request's reads saw; the transaction runs on the state. The queue job of the
-- expiry and the broadcast are left out.
use easyrepair.Prelude.{
  ℕ, zero, ℤ, ◌+◌, ◌*◌, Bool, true, false, not, ◌&&◌, Option, none, some, List, [], ◌∷◌, ◌==◌,
  if◌then◌else◌, is_some, or_else, holds_id, put, find_first,
}
use easyrepair.Steps.{pure, raise, reads, require, reject_if, catch_with, ◌>>=◌, ◌>>◌}
use easyrepair.Schema.{BookingStatus, BookingLane}
use easyrepair.Auth.Phone.{Text}
use easyrepair.Intake.State.{
  is_bidding_lane, is_inspection, is_blank_or_missing, is_normal, BookingUrgency, UrgentWindow,
  TimeSlot, ServiceCategory, SelectedService, PostedBooking, IntakeDb, IntakeError, Intake,
  no_client_profile, category_not_found, no_coordinates, no_time_slot, no_date, no_window,
  no_description, no_title, no_inspection_fee, unique_violation,
}
use easyrepair.Intake.Selection.{
  assert_lane_allowed, resolve_standard_service_selection, resolve_attached_inspection, price_of,
}

pub record CreateBooking : Type 0 where
  pub service_category : ℕ
  pub urgency : BookingUrgency
  pub time_slot : Option TimeSlot
  pub scheduled_at : Option ℕ
  pub urgent_window : Option UrgentWindow
  pub title : Option Text
  pub description : Option Text
  pub latitude : Option ℤ
  pub longitude : Option ℤ
  pub lane : Option BookingLane
  pub standard_service_ids : List ℕ
  pub standard_service_id : Option ℕ
  pub inspection : Option Bool
  pub idempotency_key : Option ℕ
  pub attached_inspection : Option ℕ

-- BOOKING_EXPIRY_MS
abbrev pub booking_expiry_ms : ℕ
booking_expiry_ms = 72 * 60 * 60 * 1000

-- `findCategoryByName`
unfoldable pub find_category_by_name : (name : ℕ) → IntakeDb → Option (ℕ × ServiceCategory)
find_category_by_name name db =
    find_first (λ i (c : ServiceCategory). c.name == name && c.is_active) db.next_category
      db.categories

-- `findBookingByIdempotencyKey`
unfoldable pub find_by_key : (key : ℕ) → IntakeDb → Option (ℕ × PostedBooking)
find_by_key key db =
    find_first (λ i (b : PostedBooking). holds_id b.idempotency_key key) db.next_booking db.bookings

abbrev pub is_zero : ℤ → Bool
is_zero (ℤ.pos zero) = true
is_zero _ = false

-- The coordinates, unless one is missing or both are zero.
abbrev pub location : Option ℤ → Option ℤ → Option (ℤ × ℤ)
location (some lat) (some lng) = if is_zero lat && is_zero lng then none else some (lat, lng)
location _ _ = none

-- `dto.standardServiceIds`, or the legacy single id.
abbrev pub requested_ids : List ℕ → Option ℕ → List ℕ
requested_ids (id ∷ ids) _ = id ∷ ids
requested_ids [] (some id) = id ∷ []
requested_ids [] none = []

-- What the lane adds: the items, the fee and the estimate.
pub record LaneTerms : Type 0 where
  pub items : List SelectedService
  pub fee : Option ℕ
  pub estimate : Option ℕ

abbrev pub standard_terms : List SelectedService → LaneTerms
standard_terms items = record { items = items; fee = none; estimate = some (price_of items) }

abbrev pub inspection_terms : ℕ → LaneTerms
inspection_terms fee = record { items = []; fee = some fee; estimate = some fee }

unfoldable pub resolve_lane :
    IntakeDb → (category : ℕ) → ServiceCategory → CreateBooking → BookingLane → Intake LaneTerms
unfolding resolve_standard_service_selection price_of
resolve_lane seen category c dto BookingLane.standard = do
  items ←
      resolve_standard_service_selection seen.services category
        (requested_ids dto.standard_service_ids dto.standard_service_id)
  pure (standard_terms items)
resolve_lane seen category c dto BookingLane.inspection = do
  fee ← require c.inspection_fee no_inspection_fee
  pure (inspection_terms fee)
resolve_lane seen category c dto BookingLane.bidding =
    pure (record { items = []; fee = none; estimate = none })

-- The tests before the lane, on the request alone.
unfoldable pub check_form : CreateBooking → BookingLane → Intake (Unit {0})
unfolding is_blank_or_missing
check_form dto lane = do
  reject_if (is_normal dto.urgency && not (is_some dto.time_slot)) no_time_slot
  reject_if (is_normal dto.urgency && not (is_some dto.scheduled_at)) no_date
  reject_if (not (is_normal dto.urgency) && not (is_some dto.urgent_window)) no_window
  reject_if (is_inspection lane && is_blank_or_missing dto.description) no_description
  reject_if (is_bidding_lane lane && is_blank_or_missing dto.title) no_title

abbrev pub new_booking :
    (now client category : ℕ)
    → CreateBooking
    → BookingLane
    → ℤ × ℤ
    → LaneTerms
    → Option ℕ
    → PostedBooking
new_booking now client category dto lane place terms attached = record {
  client_profile_id = client;
  worker_profile_id = none;
  category_id = category;
  status = BookingStatus.pending;
  lane = lane;
  urgency = dto.urgency;
  time_slot = dto.time_slot;
  scheduled_at = dto.scheduled_at;
  urgent_window = if is_normal dto.urgency then none else dto.urgent_window;
  title = dto.title;
  description = or_else dto.description [];
  latitude = place.0;
  longitude = place.1;
  inspection = or_else dto.inspection (is_inspection lane);
  items = terms.items;
  inspection_fee_snapshot = terms.fee;
  estimated_price = terms.estimate;
  expires_at = some (now + booking_expiry_ms);
  live_started_at = some now;
  idempotency_key = dto.idempotency_key;
  attached_inspection = attached;
  report = none;
}

-- Whether the unique index on `idempotencyKey` refuses the row.
unfoldable pub is_key_taken : Option ℕ → IntakeDb → Bool
unfolding find_by_key
is_key_taken none db = false
is_key_taken (some key) db = is_some (find_by_key key db)

-- The transaction of `createBooking`.
unfoldable pub insert_booking : PostedBooking → Intake (ℕ × PostedBooking)
unfolding is_key_taken
insert_booking b db =
    if is_key_taken b.idempotency_key db
    then raise unique_violation db
    else pure (db.next_booking, b)
        (record db {
          bookings = put db.next_booking b db.bookings;
          next_booking = db.next_booking + 1;
          history = (db.next_booking, BookingStatus.pending) ∷ db.history;
        })

abbrev pub or_raise : IntakeError → Option (ℕ × PostedBooking) → Intake (ℕ × PostedBooking)
or_raise e none = raise e
or_raise e (some found) = pure found

-- `catch (err)`: the row that won, if it lost the race for its key.
unfoldable pub resolve_winner_of : Option ℕ → IntakeError → Intake (ℕ × PostedBooking)
unfolding find_by_key
resolve_winner_of (some key) unique_violation =
    reads (find_by_key key) >>= or_raise unique_violation
resolve_winner_of _ e = raise e

-- The rest of `createBooking` from the attached inspection on.
abbrev pub store_booking :
    (now client category : ℕ)
    → (seen : IntakeDb) → CreateBooking
    → BookingLane
    → ℤ × ℤ
    → LaneTerms
    → Intake (ℕ × PostedBooking)
store_booking now client category seen dto lane place terms = do
  attached ← resolve_attached_inspection seen.bookings client category lane dto.attached_inspection
  catch_with (insert_booking (new_booking now client category dto lane place terms attached))
      (resolve_winner_of dto.idempotency_key)

-- The rest of `createBooking` from the lane on.
abbrev pub create_in_lane :
    (now client category : ℕ)
    → (seen : IntakeDb) → ServiceCategory
    → CreateBooking
    → BookingLane
    → ℤ × ℤ
    → Intake (ℕ × PostedBooking)
create_in_lane now client category seen c dto lane place = do
  assert_lane_allowed c lane
  terms ← resolve_lane seen category c dto lane
  store_booking now client category seen dto lane place terms

-- The rest of `createBooking`, for a request that is no replay.
unfoldable pub create_new :
    (now client : ℕ) → (seen : IntakeDb) → CreateBooking → Intake (ℕ × PostedBooking)
unfolding find_category_by_name check_form resolve_lane resolve_attached_inspection insert_booking
    resolve_winner_of
create_new now client seen dto = do
  (category, c) ← require (find_category_by_name dto.service_category seen) category_not_found
  place ← require (location dto.latitude dto.longitude) no_coordinates
  check_form dto (or_else dto.lane BookingLane.bidding)
  create_in_lane now client category seen c dto (or_else dto.lane BookingLane.bidding) place

-- `if (existing)`
unfoldable pub replay_or_create :
    (now client : ℕ)
    → (seen : IntakeDb) → CreateBooking
    → Option (ℕ × PostedBooking)
    → Intake (ℕ × PostedBooking)
unfolding create_new
replay_or_create now client seen dto none = create_new now client seen dto
replay_or_create now client seen dto (some (id, b)) = do
  reject_if (not (b.client_profile_id == client)) no_client_profile
  pure (id, b)

abbrev pub found_by : Option ℕ → IntakeDb → Option (ℕ × PostedBooking)
found_by none db = none
found_by (some key) db = find_by_key key db

-- `createBooking`
unfoldable pub create_booking :
    (now user : ℕ) → (seen : IntakeDb) → CreateBooking → Intake (ℕ × PostedBooking)
unfolding replay_or_create find_by_key
create_booking now user seen dto = do
  client ← require (seen.clients user) no_client_profile
  replay_or_create now client seen dto (found_by dto.idempotency_key seen)
