-- ===== src/Intake/Nulls.antt =====
-- What an edit stores for a field that the request sends as null.
use easyrepair.Intake.Forms.{IsWellFormed}
use easyrepair.Intake.Editing.{
  edit_read, update_booking, resolve_category, resolve_items, check_edited, edited, UpdateBooking,
  absent, null_value,
}
use easyrepair.Prelude.{ℕ, ◌≡◌, none, some, arith, put}
use easyrepair.Steps.{done}
use easyrepair.Schema.{BookingStatus, BookingLane}
use easyrepair.Intake.State.{urgent_booking, is_blank_or_missing, PostedBooking, IntakeDb}

-- The body `{}`.
abbrev pub no_change : UpdateBooking
no_change = record {
  service_category = absent;
  urgency = absent;
  time_slot = absent;
  scheduled_at = absent;
  urgent_window = absent;
  title = absent;
  description = absent;
  latitude = absent;
  longitude = absent;
  inspection = absent;
  standard_service_ids = absent;
}

-- The edit is accepted, and what it stores is not well formed.
pub record BreaksForm (user id : ℕ) (dto : UpdateBooking) (db : IntakeDb) (b : PostedBooking)
    : Type 0 where
  pub stored :
      update_booking user id dto db ≡ (done b, record db { bookings = put id b db.bookings })
  pub malformed : ¬ IsWellFormed b

-- A client's own urgent custom job that is still open, with no worker, with its title and its
-- window: an edit that sends only a null title, and one that sends only a null arrival window, is
-- accepted, and stores the booking without the title, or without the window, though a custom job
-- needs the one and an urgent booking the other.
pub null_edits-BreakForm :
    (user id : ℕ) (b : PostedBooking) (db : IntakeDb)
    → db.clients user ≡ some b.client_profile_id
    → db.bookings id ≡ some b
    → b.status ≡ BookingStatus.pending
    → b.worker_profile_id ≡ none
    → b.lane ≡ BookingLane.bidding
    → b.urgency ≡ urgent_booking
    → IsWellFormed b
    → BreaksForm user id (record no_change { title = null_value }) db (record b { title = none })
      × BreaksForm user id
          (record no_change { urgent_window = null_value })
          db
          (record b { urgent_window = none })
unfolding update_booking edit_read resolve_category check_edited resolve_items edited
    is_blank_or_missing
null_edits-BreakForm user id b db client found pending free lane urgent formed = (
  record { stored = ground arith; malformed = λ h. ground arith },
  record { stored = ground arith; malformed = λ h. ground arith },
)
