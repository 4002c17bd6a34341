-- ===== src/Intake/Editing.antt =====
-- `updateBooking` of backend/src/modules/bookings/bookings.service.ts and bookings.repository.ts.
-- The transaction updates the row by its number alone.
use easyrepair.Intake.Creation.{find_category_by_name, is_zero}
use easyrepair.Prelude.{
  ℕ, ℤ, Bool, true, false, not, ◌&&◌, ◌||◌, Option, none, some, List, ◌==◌, if◌then◌else◌, is_some,
  or_else, put,
}
use easyrepair.Steps.{pure, reads, require, reject_if, modify, ◌>>=◌, ◌>>◌}
use easyrepair.Schema.{BookingLane, is_pending}
use easyrepair.Auth.Phone.{Text}
use easyrepair.Intake.State.{
  is_bidding_lane, is_inspection, is_blank_or_missing, is_standard, is_normal, is_blank,
  BookingUrgency, UrgentWindow, TimeSlot, SelectedService, PostedBooking, IntakeDb, Intake,
  no_client_profile, category_not_found, no_coordinates, no_time_slot, no_date, no_window,
  no_description, no_title, booking_not_found, not_your_booking, not_editable, already_assigned,
  not_a_standard_booking, null_refused, type_error,
}
use easyrepair.Intake.Selection.{assert_lane_allowed, resolve_standard_service_selection, price_of}

-- A field of the request: `@IsOptional()` admits a field that is missing and one that is null.
pub data Field {ℓ} (A : Type ℓ) : Type ℓ where
  absent null_value : Field A
  given : A → Field A

-- An empty name of a category is missing, as the source tests whether there is one.
pub record UpdateBooking : Type 0 where
  pub service_category : Field ℕ
  pub urgency : Field BookingUrgency
  pub time_slot : Field TimeSlot
  pub scheduled_at : Field ℕ
  pub urgent_window : Field UrgentWindow
  pub title : Field Text
  pub description : Field Text
  pub latitude : Field ℤ
  pub longitude : Field ℤ
  pub inspection : Field Bool
  pub standard_service_ids : Field (List ℕ)

module _ {ℓ} {A : Type ℓ} where
  -- `field === null`
  abbrev pub is_null : Field A → Bool
  is_null null_value = true
  is_null _ = false

  -- `field ?? stored`, of a column that is never null.
  abbrev pub given_or : Field A → A → A
  given_or (given a) stored = a
  given_or _ stored = stored

  -- `field ?? stored`
  abbrev pub given_or_stored : Field A → Option A → Option A
  given_or_stored (given a) stored = some a
  given_or_stored _ stored = stored

  -- `field !== undefined ? field : stored`
  abbrev pub written : Field A → Option A → Option A
  written absent stored = stored
  written null_value stored = none
  written (given a) stored = some a

abbrev pub is_zero_place : Field ℤ → Field ℤ → Bool
is_zero_place (given lat) (given lng) = is_zero lat && is_zero lng
is_zero_place _ _ = false

-- The number of the new category, if it is changed.
unfoldable pub resolve_category : Field ℕ → BookingLane → Intake (Option ℕ)
unfolding find_category_by_name
resolve_category absent lane = pure none
resolve_category null_value lane = pure none
resolve_category (given name) lane = do
  (category, c) ← require (← reads (find_category_by_name name)) category_not_found
  assert_lane_allowed c lane
  pure (some category)

-- The tests on what the booking would be.
unfoldable pub check_edited : UpdateBooking → PostedBooking → Intake (Unit {0})
unfolding is_blank is_blank_or_missing
check_edited dto b = do
  let normal = is_normal (given_or dto.urgency b.urgency)
  reject_if (normal && not (is_some (written dto.time_slot b.time_slot))) no_time_slot
  reject_if (normal && not (is_some (given_or_stored dto.scheduled_at b.scheduled_at))) no_date
  reject_if (not normal && not (is_some (given_or_stored dto.urgent_window b.urgent_window)))
      no_window
  reject_if (is_inspection b.lane && is_blank (given_or dto.description b.description))
      no_description
  reject_if (is_bidding_lane b.lane && is_blank_or_missing (given_or_stored dto.title b.title))
      no_title

-- `if (dto.standardServiceIds !== undefined)`: the length of null is asked for.
unfoldable pub resolve_items :
    (category : ℕ) → BookingLane → Field (List ℕ) → Intake (Option (List SelectedService))
unfolding resolve_standard_service_selection
resolve_items category lane absent = pure none
resolve_items category lane null_value = do
  reject_if (not (is_standard lane)) not_a_standard_booking
  reject_if true type_error
  pure none
resolve_items category lane (given requested) = do
  reject_if (not (is_standard lane)) not_a_standard_booking
  services ← reads (λ (db : IntakeDb). db.services)
  items ← resolve_standard_service_selection services category requested
  pure (some items)

abbrev pub with_items : Option (List SelectedService) → PostedBooking → PostedBooking
with_items none b = b
with_items (some items) b = record b { items = items; estimated_price = some (price_of items) }

-- The data of `updateBooking`.
unfoldable pub edited :
    UpdateBooking
    → (category : Option ℕ) → Option (List SelectedService)
    → PostedBooking
    → PostedBooking
unfolding price_of
edited dto category items b = with_items items (record b {
  category_id = or_else category b.category_id;
  urgency = given_or dto.urgency b.urgency;
  time_slot = written dto.time_slot b.time_slot;
  scheduled_at = given_or_stored dto.scheduled_at b.scheduled_at;
  urgent_window =
      if is_normal (given_or dto.urgency b.urgency)
      then none
      else written dto.urgent_window b.urgent_window;
  title = written dto.title b.title;
  description = given_or dto.description b.description;
  latitude = given_or dto.latitude b.latitude;
  longitude = given_or dto.longitude b.longitude;
  inspection = given_or dto.inspection b.inspection;
})

-- A null for a column that admits none.
abbrev pub has_refused_null : UpdateBooking → Bool
has_refused_null dto =
    is_null dto.urgency
    || is_null dto.description
    || is_null dto.latitude
    || is_null dto.longitude
    || is_null dto.inspection

abbrev pub store_edit : (id : ℕ) → PostedBooking → Intake PostedBooking
store_edit id b = do
  modify (λ (db : IntakeDb). record db { bookings = put id b db.bookings })
  pure b

-- The transaction of `updateBooking`.
abbrev pub apply_edit :
    (id : ℕ)
    → UpdateBooking
    → PostedBooking
    → (category : Option ℕ) → Option (List SelectedService)
    → Intake PostedBooking
apply_edit id dto b category items = do
  reject_if (has_refused_null dto) null_refused
  store_edit id (edited dto category items b)

-- `updateBooking` from the coordinates on.
abbrev pub edit_place :
    (id : ℕ) → UpdateBooking → PostedBooking → (category : Option ℕ) → Intake PostedBooking
edit_place id dto b category = do
  reject_if (is_zero_place dto.latitude dto.longitude) no_coordinates
  check_edited dto b
  items ← resolve_items (or_else category b.category_id) b.lane dto.standard_service_ids
  apply_edit id dto b category items

-- `updateBooking`, on the booking that it read.
unfoldable pub edit_read : (client id : ℕ) → UpdateBooking → PostedBooking → Intake PostedBooking
unfolding resolve_category check_edited resolve_items edited
edit_read client id dto b = do
  reject_if (not (b.client_profile_id == client)) not_your_booking
  reject_if (not (is_pending b.status)) not_editable
  reject_if (is_some b.worker_profile_id) already_assigned
  category ← resolve_category dto.service_category b.lane
  edit_place id dto b category

-- `updateBooking`
unfoldable pub update_booking : (user id : ℕ) → UpdateBooking → Intake PostedBooking
unfolding edit_read
update_booking user id dto = do
  client ← require (← reads (λ (db : IntakeDb). db.clients user)) no_client_profile
  b ← require (← reads (λ (db : IntakeDb). db.bookings id)) booking_not_found
  edit_read client id dto b
