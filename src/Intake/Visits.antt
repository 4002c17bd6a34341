-- ===== src/Intake/Visits.antt =====
-- The requests that create and edit bookings, one after another.
use easyrepair.Intake.Edits.{update-Kept, is_plain}
use easyrepair.Intake.Posting.{create-Kept}
use easyrepair.Intake.Editing.{update_booking, UpdateBooking}
use easyrepair.Intake.Creation.{create_booking, CreateBooking}
use easyrepair.Intake.Forms.{AreWellFormed}
use easyrepair.Prelude.{ℕ, ◌≡◌, Bool, true, ◌&&◌, List, [], ◌∷◌, arith}
use easyrepair.Intake.State.{IntakeDb}

-- A request, with what the reads of a creation had seen.
pub data IntakeRequest : Type 0 where
  creates : (seen : IntakeDb) → (user : ℕ) → CreateBooking → IntakeRequest
  edits : (user id : ℕ) → UpdateBooking → IntakeRequest

unfoldable pub take_in : List (ℕ × IntakeRequest) → IntakeDb → IntakeDb
unfolding create_booking update_booking
take_in [] db = db
take_in ((now, creates seen user dto) ∷ requests) db =
    take_in requests (create_booking now user seen dto db).1
take_in ((now, edits user id dto) ∷ requests) db =
    take_in requests (update_booking user id dto db).1

-- No edit sends a null for a title or an arrival window.
unfoldable pub are_plain : List (ℕ × IntakeRequest) → Bool
are_plain [] = true
are_plain ((now, creates seen user dto) ∷ requests) = are_plain requests
are_plain ((now, edits user id dto) ∷ requests) =
    let rest = are_plain requests in is_plain dto && rest

-- Whatever bookings are created, in any interleaving of their reads and their transactions, and
-- edited by requests that nobody interrupts and that send no null for a title or an arrival window,
-- each stored booking stays well formed: a normal one has its slot and its date and no arrival
-- window and an urgent one has its window; the estimate of a standard booking is the sum of its
-- services' prices, that of an inspection is its fee and it has a description, and a bidding job
-- has a title and no estimate.
pub intake-AreWellFormed :
    (requests : List (ℕ × IntakeRequest)) (db : IntakeDb)
    → are_plain requests ≡ true
    → AreWellFormed db
    → AreWellFormed (take_in requests db)
unfolding take_in are_plain
intake-AreWellFormed [] db plain h = h
intake-AreWellFormed ((now, creates seen user dto) ∷ rs) db plain h =
    intake-AreWellFormed rs (create_booking now user seen dto db).1 plain
      ((create-Kept now user seen dto).after db h)
intake-AreWellFormed ((now, edits user id dto) ∷ rs) db plain h =
    intake-AreWellFormed rs (update_booking user id dto db).1 (ground arith)
      ((update-Kept user id dto (ground arith)).after db h)
