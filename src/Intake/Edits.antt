-- ===== src/Intake/Edits.antt =====
-- An edited booking is well formed, where the request sends no null for a title or a window.
use easyrepair.Intake.Forms.{
  put-AreWellFormed, IsWellFormedRow, IsWellFormed, IsTimed, AreWellFormed,
}
use easyrepair.Intake.Editing.{
  is_zero_place, edit_read, update_booking, edit_place, resolve_category, apply_edit, resolve_items,
  check_edited, edited, UpdateBooking, Field, absent, null_value, given, given_or, written, is_null,
  has_refused_null, store_edit,
}
use easyrepair.Prelude.{
  ℕ, ◌≡◌, subst, true, false, Option, none, some, List, arith, or_else, Bool, not, ◌&&◌,
}
use easyrepair.Steps.{reads, require, done, ◌>>=◌, done}
use easyrepair.Steps.Keeps.{passed-Keeps, reject-Keeps, sequence-Keeps, keeping, Keeps}
use easyrepair.Schema.{BookingLane}
use easyrepair.Intake.State.{
  IntakeError, booking_not_found, no_coordinates, null_refused, is_blank_or_missing,
  is_bidding_lane, is_blank, is_inspection, is_standard, PostedBooking, IntakeDb, Intake,
  SelectedService,
}
use easyrepair.Intake.Selection.{resolve_standard_service_selection}

abbrev Kept : {A : Type 0} → Intake A → Type 0
Kept = Keeps AreWellFormed

-- The services are replaced only where the lane is the standard one.
abbrev FitsLane : BookingLane → Option (List SelectedService) → Type 0
FitsLane lane none = Unit
FitsLane lane (some _) = is_standard lane ≡ true

items-FitsLane :
    (category : ℕ) (lane : BookingLane) (requested : Field (List ℕ)) (s t : IntakeDb)
    (items : Option (List SelectedService))
    → resolve_items category lane requested s ≡ (done items, t)
    → FitsLane lane items
unfolding resolve_items resolve_standard_service_selection
items-FitsLane category lane requested s t items h = ground arith

-- The request sends no null for a field that the tests take from the booking then.
abbrev pub is_plain : UpdateBooking → Bool
is_plain dto = not (is_null dto.title) && not (is_null dto.urgent_window)

-- What the tests of an edit show of the booking that it makes.
record IsEdit (dto : UpdateBooking) (b : PostedBooking) : Type 0 where
  pub timed :
      (category : Option ℕ) (items : Option (List SelectedService))
      → IsTimed (edited dto category items b) (edited dto category items b).urgency
  pub described :
      is_inspection b.lane ≡ true → is_blank (given_or dto.description b.description) ≡ false
  pub titled :
      is_bidding_lane b.lane ≡ true → is_blank_or_missing (written dto.title b.title) ≡ false

check-IsTimed :
    (dto : UpdateBooking) (b : PostedBooking) (category : Option ℕ)
    (items : Option (List SelectedService)) (s t : IntakeDb)
    → is_plain dto ≡ true
    → check_edited dto b s ≡ (done tt, t)
    → IsTimed (edited dto category items b) (edited dto category items b).urgency
unfolding check_edited edited
check-IsTimed dto b category none s t plain h = ground arith
check-IsTimed dto b category (some items) s t plain h = ground arith

check-IsEdit :
    (dto : UpdateBooking) (b : PostedBooking) (s t : IntakeDb)
    → is_plain dto ≡ true
    → check_edited dto b s ≡ (done tt, t)
    → IsEdit dto b
unfolding check_edited
check-IsEdit dto b s t plain h = record {
  timed = λ category items. check-IsTimed dto b category items s t plain h;
  described = λ l. ground arith;
  titled = λ l. ground arith;
}

edited-IsWellFormed :
    (dto : UpdateBooking) (b : PostedBooking) (category : Option ℕ)
    (items : Option (List SelectedService))
    → IsWellFormed b
    → IsEdit dto b
    → FitsLane b.lane items
    → IsWellFormed (edited dto category items b)
unfolding edited
edited-IsWellFormed dto b category items formed edit fits =
    ground (arith, edit.timed category items, edit.described, edit.titled)

apply-Kept :
    (id : ℕ) (dto : UpdateBooking) (b : PostedBooking) (category : Option ℕ)
    (items : Option (List SelectedService))
    → IsWellFormed (edited dto category items b)
    → Kept (apply_edit id dto b category items)
apply-Kept id dto b category items formed =
    sequence-Keeps AreWellFormed {k = store_edit id (edited dto category items b)}
      (reject-Keeps AreWellFormed (has_refused_null dto) null_refused)
      λ _. record {
        after = λ db h. put-AreWellFormed id (edited dto category items b) db.bookings formed h;
      }

items-Kept :
    (category : ℕ) (lane : BookingLane) (requested : Field (List ℕ))
    → Kept (resolve_items category lane requested)
unfolding resolve_items resolve_standard_service_selection
items-Kept category lane absent = search keeping
items-Kept category lane null_value = search keeping depth 16
items-Kept category lane (given requested) = search keeping depth 16

check-Kept : (dto : UpdateBooking) (b : PostedBooking) → Kept (check_edited dto b)
unfolding check_edited
check-Kept dto b = search keeping depth 16

category-Kept : (name : Field ℕ) (lane : BookingLane) → Kept (resolve_category name lane)
unfolding resolve_category
category-Kept absent lane = search keeping
category-Kept null_value lane = search keeping
category-Kept (given name) lane = search keeping depth 16

module _ (client id : ℕ) (dto : UpdateBooking) (plain : is_plain dto ≡ true) (b : PostedBooking)
    (formed : IsWellFormed b) where
  place-Kept : (category : Option ℕ) → Kept (edit_place id dto b category)
  place-Kept category =
      sequence-Keeps AreWellFormed
        (reject-Keeps AreWellFormed (is_zero_place dto.latitude dto.longitude) no_coordinates)
        λ _.
          passed-Keeps AreWellFormed (check_edited dto b)
            (λ _.
              resolve_items (or_else category b.category_id) b.lane dto.standard_service_ids
              >>= apply_edit id dto b category)
            (check-Kept dto b)
            λ u s t p h.
              passed-Keeps AreWellFormed
                (resolve_items (or_else category b.category_id) b.lane dto.standard_service_ids)
                (apply_edit id dto b category)
                (items-Kept (or_else category b.category_id) b.lane dto.standard_service_ids)
                λ items s' t' p' h'. apply-Kept id dto b category items (
                  edited-IsWellFormed dto b category items formed (check-IsEdit dto b s t plain h) (
                    items-FitsLane (or_else category b.category_id) b.lane dto.standard_service_ids
                      s' t' items h'))

  edit-Kept : Kept (edit_read client id dto b)
  unfolding edit_read
  edit-Kept = search (keeping, category-Kept, place-Kept) depth 12

found-Kept :
    (client id : ℕ) (dto : UpdateBooking) (o : Option PostedBooking)
    → is_plain dto ≡ true
    → IsWellFormedRow id o
    → Kept (require o booking_not_found >>= edit_read client id dto)
found-Kept client id dto none plain formed = record { after = λ db h. h }
found-Kept client id dto (some b) plain formed = record {
  after = (edit-Kept client id dto plain b formed).after;
}

read-Kept :
    (client id : ℕ) (dto : UpdateBooking)
    → is_plain dto ≡ true
    → Kept (
        reads (λ (db : IntakeDb). db.bookings id) >>= λ o.
        (require o booking_not_found >>= edit_read client id dto))
read-Kept client id dto plain =
    passed-Keeps AreWellFormed (reads (λ (db : IntakeDb). db.bookings id))
      (λ o. require o booking_not_found >>= edit_read client id dto) (search keeping)
      λ o s t p h.
        found-Kept client id dto o plain (subst (IsWellFormedRow id) (same o s t h) (p id))
  where
    same :
        (o : Option PostedBooking) (s t : IntakeDb)
        → reads {E = IntakeError} (λ (db : IntakeDb). db.bookings id) s ≡ (done o, t)
        → s.bookings id ≡ o
    same o s t h = ground arith

pub update-Kept :
    (user id : ℕ) (dto : UpdateBooking)
    → is_plain dto ≡ true
    → Keeps AreWellFormed (update_booking user id dto)
unfolding update_booking
update-Kept user id dto plain = search (keeping, read-Kept)
