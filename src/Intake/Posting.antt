-- ===== src/Intake/Posting.antt =====
-- A new booking is well formed.
use easyrepair.Intake.Forms.{put-AreWellFormed, IsWellFormed, AreWellFormed}
use easyrepair.Intake.Creation.{
  or_raise, find_by_key, store_booking, create_in_lane, resolve_winner_of, create_new,
  create_booking, replay_or_create, new_booking, is_key_taken, insert_booking, CreateBooking,
  LaneTerms, resolve_lane, check_form,
}
use easyrepair.Prelude.{
  ℕ, ℤ, ◌≡◌, inl, inr, true, false, not, Option, none, some, arith, Bool-cases, is_some, Table,
}
use easyrepair.Steps.{◌>>=◌, done}
use easyrepair.Steps.Keeps.{passed-Keeps, sequence-Keeps, reject-Keeps, keeping, Keeps}
use easyrepair.Schema.{BookingLane}
use easyrepair.Intake.State.{
  lane_not_offered, IntakeError, ServiceCategory, is_blank, is_blank_or_missing, BookingUrgency,
  urgent_booking, normal_booking, PostedBooking, IntakeDb, Intake,
}
use easyrepair.Intake.Selection.{
  resolve_sole_lane, is_offered, resolve_attached_inspection, resolve_standard_service_selection,
  price_of,
}

abbrev Kept : {A : Type 0} → Intake A → Type 0
Kept = Keeps AreWellFormed

-- What the tests of the request show of the booking.
abbrev IsTimely : CreateBooking → BookingUrgency → Type 0
IsTimely dto normal_booking = (is_some dto.time_slot ≡ true) × (is_some dto.scheduled_at ≡ true)
IsTimely dto urgent_booking = is_some dto.urgent_window ≡ true

abbrev IsTold : CreateBooking → BookingLane → Type 0
IsTold dto BookingLane.standard = Unit
IsTold dto BookingLane.inspection = is_blank_or_missing dto.description ≡ false
IsTold dto BookingLane.bidding = is_blank_or_missing dto.title ≡ false

form-IsTimely :
    (dto : CreateBooking) (lane : BookingLane) (s t : IntakeDb)
    → check_form dto lane s ≡ (done tt, t)
    → IsTimely dto dto.urgency × IsTold dto lane
unfolding check_form
form-IsTimely dto lane s t h = ground arith

-- What the lane adds to the booking.
abbrev IsLanePrice : LaneTerms → BookingLane → Type 0
IsLanePrice terms BookingLane.standard = terms.estimate ≡ some (price_of terms.items)
IsLanePrice terms BookingLane.inspection = (is_some terms.fee ≡ true) × (terms.estimate ≡ terms.fee)
IsLanePrice terms BookingLane.bidding = terms.estimate ≡ none

lane-IsLanePrice :
    (seen : IntakeDb) (category : ℕ) (c : ServiceCategory) (dto : CreateBooking)
    (lane : BookingLane) (s t : IntakeDb) (terms : LaneTerms)
    → resolve_lane seen category c dto lane s ≡ (done terms, t)
    → IsLanePrice terms lane
unfolding resolve_lane resolve_standard_service_selection
lane-IsLanePrice seen category c dto BookingLane.standard s t terms h = ground arith
lane-IsLanePrice seen category c dto BookingLane.inspection s t terms h = ground arith
lane-IsLanePrice seen category c dto BookingLane.bidding s t terms h = ground arith

new_booking-IsWellFormed :
    (now client category : ℕ) (dto : CreateBooking) (lane : BookingLane) (place : ℤ × ℤ)
    (terms : LaneTerms) (attached : Option ℕ)
    → IsTimely dto dto.urgency
    → IsTold dto lane
    → IsLanePrice terms lane
    → IsWellFormed (new_booking now client category dto lane place terms attached)
unfolding is_blank_or_missing is_blank
new_booking-IsWellFormed now client category dto lane place terms attached timely told priced =
    ground arith

insert-Kept : (b : PostedBooking) → IsWellFormed b → Kept (insert_booking b)
unfolding insert_booking
insert-Kept b formed = record {
  after = λ db h. elim (Bool-cases (is_key_taken b.idempotency_key db)) [
    | inl taken ↦ rw taken h
    | inr free ↦ rw free (put-AreWellFormed db.next_booking b db.bookings formed h)
  ];
}

attached-Kept :
    (bookings : Table PostedBooking) (client category : ℕ) (lane : BookingLane)
    (requested : Option ℕ)
    → Kept (resolve_attached_inspection bookings client category lane requested)
unfolding resolve_attached_inspection
attached-Kept bookings client category lane none = search keeping
attached-Kept bookings client category lane (some requested) = search keeping depth 20

or_raise-Kept : (e : IntakeError) (o : Option (ℕ × PostedBooking)) → Kept (or_raise e o)
or_raise-Kept e none = search keeping
or_raise-Kept e (some found) = search keeping

winner-Kept : (key : Option ℕ) (e : IntakeError) → Kept (resolve_winner_of key e)
unfolding resolve_winner_of
winner-Kept key e = record {
  after = λ db h. ground (arith, λ (k : ℕ). (or_raise-Kept e (find_by_key k db)).after db h);
}

lane-Kept :
    (seen : IntakeDb) (category : ℕ) (c : ServiceCategory) (dto : CreateBooking)
    (lane : BookingLane)
    → Kept (resolve_lane seen category c dto lane)
unfolding resolve_lane resolve_standard_service_selection
lane-Kept seen category c dto BookingLane.standard = search keeping depth 12
lane-Kept seen category c dto BookingLane.inspection = search keeping depth 12
lane-Kept seen category c dto BookingLane.bidding = search keeping depth 12

form-Kept : (dto : CreateBooking) (lane : BookingLane) → Kept (check_form dto lane)
unfolding check_form
form-Kept dto lane = search keeping depth 16

module _ (now client category : ℕ) (seen : IntakeDb) (c : ServiceCategory) (dto : CreateBooking)
    (lane : BookingLane) (place : ℤ × ℤ) where
  store-Kept :
      (terms : LaneTerms)
      → IsTimely dto dto.urgency
      → IsTold dto lane
      → IsLanePrice terms lane
      → Kept (store_booking now client category seen dto lane place terms)
  store-Kept terms timely told priced =
      search
        (
          keeping,
          attached-Kept,
          winner-Kept,
          λ (attached : Option ℕ).
              insert-Kept (new_booking now client category dto lane place terms attached) (
                new_booking-IsWellFormed now client category dto lane place terms attached timely
                  told priced),
        )
        depth 12

  in_lane-Kept :
      IsTimely dto dto.urgency
      → IsTold dto lane
      → Kept (create_in_lane now client category seen c dto lane place)
  in_lane-Kept timely told =
      sequence-Keeps AreWellFormed
        (reject-Keeps AreWellFormed
          (not (is_offered (resolve_sole_lane c.sole_lane c.inspection_only) lane))
          lane_not_offered)
        λ _. priced
    where
      priced : Kept (
          resolve_lane seen category c dto lane
          >>= store_booking now client category seen dto lane place)
      priced =
          passed-Keeps AreWellFormed (resolve_lane seen category c dto lane)
            (store_booking now client category seen dto lane place)
            (lane-Kept seen category c dto lane)
            λ terms s t p h.
              store-Kept terms timely told (lane-IsLanePrice seen category c dto lane s t terms h)

  formed-Kept :
      Kept (check_form dto lane >>= λ _. create_in_lane now client category seen c dto lane place)
  formed-Kept =
      passed-Keeps AreWellFormed (check_form dto lane)
        (λ _. create_in_lane now client category seen c dto lane place) (form-Kept dto lane)
        λ u s t p h. in_lane-Kept (form-IsTimely dto lane s t h).0 (form-IsTimely dto lane s t h).1

new-Kept :
    (now client : ℕ) (seen : IntakeDb) (dto : CreateBooking) → Kept (create_new now client seen dto)
unfolding create_new
new-Kept now client seen dto = search (keeping, formed-Kept) depth 12

replay-Kept :
    (now client : ℕ) (seen : IntakeDb) (dto : CreateBooking) (o : Option (ℕ × PostedBooking))
    → Kept (replay_or_create now client seen dto o)
unfolding replay_or_create
replay-Kept now client seen dto none = new-Kept now client seen dto
replay-Kept now client seen dto (some (id, b)) = search keeping

pub create-Kept :
    (now user : ℕ) (seen : IntakeDb) (dto : CreateBooking)
    → Keeps AreWellFormed (create_booking now user seen dto)
unfolding create_booking
create-Kept now user seen dto = search (keeping, replay-Kept)
