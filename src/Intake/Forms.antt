-- ===== src/Intake/Forms.antt =====
-- What every stored booking is like.
use easyrepair.Prelude.{ℕ, ◌≡◌, true, false, Option, none, some, is_some, Table, put, put_rule}
use easyrepair.Schema.{BookingLane}
use easyrepair.Intake.State.{
  normal_booking, urgent_booking, is_blank_or_missing, is_blank, BookingUrgency, PostedBooking,
  IntakeDb,
}
use easyrepair.Intake.Selection.{price_of}

-- The estimate is the sum of the chosen services, or the inspection fee; a custom job has neither.
abbrev pub IsPriced : PostedBooking → BookingLane → Type 0
IsPriced b BookingLane.standard = b.estimated_price ≡ some (price_of b.items)
IsPriced b BookingLane.inspection =
    (is_some b.inspection_fee_snapshot ≡ true)
    × (b.estimated_price ≡ b.inspection_fee_snapshot)
    × (is_blank b.description ≡ false)
IsPriced b BookingLane.bidding = (b.estimated_price ≡ none) × (is_blank_or_missing b.title ≡ false)

-- A normal booking has its slot and its date, and no window; an urgent one has its window.
abbrev pub IsTimed : PostedBooking → BookingUrgency → Type 0
IsTimed b normal_booking =
    (is_some b.time_slot ≡ true) × (is_some b.scheduled_at ≡ true) × (b.urgent_window ≡ none)
IsTimed b urgent_booking = is_some b.urgent_window ≡ true

abbrev pub IsWellFormed : PostedBooking → Type 0
IsWellFormed b = IsTimed b b.urgency × IsPriced b b.lane

abbrev pub IsWellFormedRow : ℕ → Option PostedBooking → Type 0
IsWellFormedRow i none = Unit
IsWellFormedRow i (some b) = IsWellFormed b

abbrev pub AreWellFormed : IntakeDb → Type 0
AreWellFormed db = (i : ℕ) → IsWellFormedRow i (db.bookings i)

pub put-AreWellFormed :
    (id : ℕ) (b : PostedBooking) (t : Table PostedBooking)
    → IsWellFormed b
    → ((i : ℕ) → IsWellFormedRow i (t i))
    → (i : ℕ) → IsWellFormedRow i (put id b t i)
put-AreWellFormed id b t here there = put_rule IsWellFormedRow id b t here there
