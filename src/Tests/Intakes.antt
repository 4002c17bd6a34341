-- ===== src/Tests/Intakes.antt =====
-- A client posts a fixed-price job and a custom one, and edits the first.
use easyrepair.Intake.Selection.{
  resolve_attached_inspection, price_of, select_services, all_available, all_found, is_member,
  unique_ids, resolve_standard_service_selection,
}
use easyrepair.Intake.Replays.{create_twice}
use easyrepair.Intake.Forms.{AreWellFormed}
use easyrepair.Prelude.{ℕ, ℤ, ◌≡◌, refl, true, false, none, some, List, [], ◌∷◌, put, find_first}
use easyrepair.Steps.{done}
use easyrepair.Schema.{BookingStatus, BookingLane}
use easyrepair.Intake.State.{
  is_blank_or_missing, IntakeDb, PostedBooking, urgent_booking, normal_booking, TimeSlot,
  UrgentWindow,
}
use easyrepair.Intake.Creation.{
  is_key_taken, insert_booking, resolve_lane, check_form, find_by_key, find_category_by_name,
  create_new, replay_or_create, create_booking, CreateBooking,
}
use easyrepair.Intake.Editing.{UpdateBooking, given, null_value}
use easyrepair.Intake.Nulls.{no_change, BreaksForm, null_edits-BreakForm}
use easyrepair.Intake.Visits.{
  intake-AreWellFormed, take_in, IntakeRequest, creates, edits, are_plain,
}

-- The user 100 is the client 10; the category 0 offers the service 4 for 1500 rupees.
abbrev desk : IntakeDb
desk = record {
  clients = put 100 10 (λ _. none);
  categories =
      put 0
        (record {
          name = 7;
          is_active = true;
          inspection_fee = some 50000;
          sole_lane = none;
          inspection_only = false;
        })
        (λ _. none);
  next_category = 1;
  services = put 4 (record { category_id = 0; is_active = true; price = 150000 }) (λ _. none);
  bookings = λ _. none;
  next_booking = 0;
  history = [];
}

-- The service twice, within two hours.
abbrev fixed : CreateBooking
fixed = record {
  service_category = 7;
  urgency = urgent_booking;
  time_slot = none;
  scheduled_at = none;
  urgent_window = some UrgentWindow.within_2_hours;
  title = none;
  description = none;
  latitude = some (ℤ.pos 31520400);
  longitude = some (ℤ.pos 74358700);
  lane = some BookingLane.standard;
  standard_service_ids = 4 ∷ 4 ∷ [];
  standard_service_id = none;
  inspection = none;
  idempotency_key = some 77;
  attached_inspection = none;
}

-- A custom job, without a lane, for a morning.
abbrev custom : CreateBooking
custom = record fixed {
  urgency = normal_booking;
  time_slot = some TimeSlot.morning;
  scheduled_at = some 5000;
  lane = none;
  title = some (80 ∷ 97 ∷ []);
  idempotency_key = none;
}

abbrev later_that_day : UpdateBooking
later_that_day = record no_change {
  urgency = given normal_booking;
  time_slot = given TimeSlot.evening;
  scheduled_at = given 9000;
}

abbrev requests : List (ℕ × IntakeRequest)
requests =
    (1000, creates desk 100 fixed)
    ∷ (1001, creates desk 100 custom)
    ∷ (1002, edits 100 0 later_that_day)
    ∷ []

intake-AreWellFormed_example : AreWellFormed (take_in requests desk)
unfolding are_plain
intake-AreWellFormed_example = intake-AreWellFormed requests desk refl (λ i. tt)

-- The two selections of the service are one.
abbrev posted : PostedBooking
posted = record {
  client_profile_id = 10;
  worker_profile_id = none;
  category_id = 0;
  status = BookingStatus.pending;
  lane = BookingLane.standard;
  urgency = urgent_booking;
  time_slot = none;
  scheduled_at = none;
  urgent_window = some UrgentWindow.within_2_hours;
  title = none;
  description = [];
  latitude = ℤ.pos 31520400;
  longitude = ℤ.pos 74358700;
  inspection = false;
  items = record { standard_service_id = 4; price_snapshot = 150000; quantity = 1 } ∷ [];
  inspection_fee_snapshot = none;
  estimated_price = some 150000;
  expires_at = some 259201000;
  live_started_at = some 1000;
  idempotency_key = some 77;
  attached_inspection = none;
  report = none;
}

abbrev after_posting : IntakeDb
after_posting = (create_booking 1000 100 desk fixed desk).1

posts : create_booking 1000 100 desk fixed desk ≡ (done (0, posted), after_posting)
unfolding create_booking replay_or_create create_new find_category_by_name find_first find_by_key
    check_form is_blank_or_missing resolve_lane resolve_standard_service_selection unique_ids
    is_member all_found all_available select_services price_of resolve_attached_inspection
    insert_booking is_key_taken
posts = refl

still_known : after_posting.clients 100 ≡ some 10
unfolding create_booking replay_or_create create_new find_category_by_name find_first find_by_key
    check_form is_blank_or_missing resolve_lane resolve_standard_service_selection unique_ids
    is_member all_found all_available select_services price_of resolve_attached_inspection
    insert_booking is_key_taken
still_known = refl

create_twice_example :
    create_booking 2000 100 after_posting fixed after_posting ≡ (done (0, posted), after_posting)
create_twice_example =
    create_twice 1000 2000 77 100 10 0 fixed posted desk after_posting refl posts refl still_known

-- A custom job of the client that is wanted within two hours.
abbrev urgent_custom : PostedBooking
urgent_custom = record posted {
  lane = BookingLane.bidding;
  title = some (80 ∷ 97 ∷ []);
  items = [];
  estimated_price = none;
}

abbrev custom_db : IntakeDb
custom_db = record desk { bookings = put 0 urgent_custom (λ _. none); next_booking = 1 }

null_edits-BreakForm_example :
    BreaksForm 100 0
      (record no_change { title = null_value })
      custom_db
      (record urgent_custom { title = none })
    × BreaksForm 100 0
        (record no_change { urgent_window = null_value })
        custom_db
        (record urgent_custom { urgent_window = none })
unfolding is_blank_or_missing
null_edits-BreakForm_example =
    null_edits-BreakForm 100 0 urgent_custom custom_db refl refl refl refl refl refl
      (refl, (refl, refl))
