-- ===== src/Intake/State.antt =====
-- What the intake of bookings reads and writes. Names of categories are numbers, equal where the
-- source's insensitive comparison says so; a text is the list of its code units. The address lines
-- are left out.
use easyrepair.Prelude.{
  ℕ, ℤ, Bool, true, false, ◌&&◌, ◌||◌, Option, none, some, List, [], ◌∷◌, leb, ◌==◌, Table,
}
use easyrepair.Steps.{Step}
use easyrepair.Schema.{BookingStatus, BookingLane, InspectionDecisionStatus}
use easyrepair.Auth.Phone.{Text}

pub data BookingUrgency : Type 0 where
  urgent_booking normal_booking : BookingUrgency

pub data UrgentWindow : Type 0 where
  within_1_hour within_2_hours within_4_hours : UrgentWindow

pub data TimeSlot : Type 0 where
  morning afternoon evening night : TimeSlot

pub record ServiceCategory : Type 0 where
  pub name : ℕ
  pub is_active : Bool
  pub inspection_fee : Option ℕ
  pub sole_lane : Option BookingLane
  pub inspection_only : Bool

pub record StandardService : Type 0 where
  pub category_id : ℕ
  pub is_active : Bool
  pub price : ℕ

-- A row of `bookingStandardServiceItem`.
pub record SelectedService : Type 0 where
  pub standard_service_id : ℕ
  pub price_snapshot : ℕ
  pub quantity : ℕ

-- A booking by what its creation and its editing write of it, with the decision of its report.
pub record PostedBooking : Type 0 where
  pub client_profile_id : ℕ
  pub worker_profile_id : Option ℕ
  pub category_id : ℕ
  pub status : BookingStatus
  pub lane : BookingLane
  pub urgency : BookingUrgency
  pub time_slot : Option TimeSlot
  pub scheduled_at : Option ℕ
  pub urgent_window : Option UrgentWindow
  pub title : Option Text
  pub description : Text
  pub latitude : ℤ
  pub longitude : ℤ
  pub inspection : Bool
  pub items : List SelectedService
  pub inspection_fee_snapshot : Option ℕ
  pub estimated_price : Option ℕ
  pub expires_at : Option ℕ
  pub live_started_at : Option ℕ
  pub idempotency_key : Option ℕ
  pub attached_inspection : Option ℕ
  pub report : Option InspectionDecisionStatus

pub record IntakeDb : Type 0 where
  pub clients : Table ℕ
  pub categories : Table ServiceCategory
  pub next_category : ℕ
  pub services : Table StandardService
  pub bookings : Table PostedBooking
  pub next_booking : ℕ
  pub history : List (ℕ × BookingStatus)

pub data IntakeError : Type 0 where
  no_client_profile category_not_found no_coordinates no_time_slot no_date no_window : IntakeError
  no_description no_title lane_not_offered no_inspection_fee : IntakeError
  nothing_selected service_not_found service_not_available : IntakeError
  not_a_bidding_job not_attachable other_service : IntakeError
  booking_not_found not_your_booking not_editable already_assigned not_a_standard_booking :
      IntakeError
  unique_violation null_refused type_error : IntakeError

abbrev pub Intake : Type 0 → Type 0
Intake = Step IntakeDb IntakeError

-- The characters that `trim` takes away.
abbrev pub is_white : ℕ → Bool
is_white c =
    (leb 9 c && leb c 13)
    || (c == 32)
    || (c == 160)
    || (c == 5760)
    || (leb 8192 c && leb c 8202)
    || (c == 8232)
    || (c == 8233)
    || (c == 8239)
    || (c == 8287)
    || (c == 12288)
    || (c == 65279)

-- `!text.trim()`
unfoldable pub is_blank : Text → Bool
is_blank [] = true
is_blank (c ∷ cs) = let rest = is_blank cs in is_white c && rest

-- `!text?.trim()`
unfoldable pub is_blank_or_missing : Option Text → Bool
unfolding is_blank
is_blank_or_missing none = true
is_blank_or_missing (some text) = is_blank text

abbrev pub is_normal : BookingUrgency → Bool
is_normal normal_booking = true
is_normal urgent_booking = false

abbrev pub is_inspection : BookingLane → Bool
is_inspection BookingLane.inspection = true
is_inspection _ = false

abbrev pub is_standard : BookingLane → Bool
is_standard BookingLane.standard = true
is_standard _ = false

abbrev pub is_bidding_lane : BookingLane → Bool
is_bidding_lane BookingLane.bidding = true
is_bidding_lane _ = false

abbrev pub same_lane : BookingLane → BookingLane → Bool
same_lane BookingLane.standard BookingLane.standard = true
same_lane BookingLane.inspection BookingLane.inspection = true
same_lane BookingLane.bidding BookingLane.bidding = true
same_lane _ _ = false
