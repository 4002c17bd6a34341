-- ===== src/Intake/Replays.antt =====
-- A creation that is sent again with its key.
use easyrepair.Schema.{BookingLane}
use easyrepair.Steps.{done}
use easyrepair.Intake.Creation.{
  found_by, new_booking, store_booking, create_in_lane, LaneTerms, create_new, create_booking,
  replay_or_create, CreateBooking, is_key_taken, insert_booking, find_by_key, resolve_winner_of,
}
use easyrepair.Prelude.{
  ℕ, ℤ, ◌+◌, ◌≡◌, sym, ap, ◌∙◌, inl, inr, Option, none, some, arith, Bool-cases, Option-cases,
  holds_id, Table, put, find_first,
}
use easyrepair.Steps.Yields.{handled-Yields, sequence-Yields, bind-Yields, Yields}
use easyrepair.Intake.State.{ServiceCategory, IntakeDb, IntakeError, PostedBooking}

-- The booking is found by the key.
abbrev IsFound : (key : ℕ) → ℕ × PostedBooking → IntakeDb → Type 0
IsFound key answer db = find_by_key key db ≡ some answer

find-inserted :
    (key next : ℕ) (b : PostedBooking) (t : Table PostedBooking)
    → b.idempotency_key ≡ some key
    → find_first (λ i (b : PostedBooking). holds_id b.idempotency_key key) (next + 1) (put next b t)
      ≡ some (next, b)
unfolding find_first
find-inserted key next b t same = ground arith

insert-IsFound :
    (key : ℕ) (b : PostedBooking)
    → b.idempotency_key ≡ some key
    → Yields (IsFound key) (insert_booking b)
unfolding insert_booking find_by_key
insert-IsFound key b same = record {
  on_done = λ s t a h. elim (Bool-cases (is_key_taken b.idempotency_key s)) [
    | inl taken ↦ absurd (ground (arith, rw taken at h))
    | inr free ↦ ground (arith, rw free at h, find-inserted key s.next_booking b s.bookings same)
  ];
}

winner-IsFound :
    (key : ℕ) (k : Option ℕ) (e : IntakeError)
    → k ≡ some key
    → Yields (IsFound key) (resolve_winner_of k e)
unfolding resolve_winner_of
winner-IsFound key k e same = rw same (record { on_done = λ s t a h. ground arith })

module _ (key : ℕ) (now client : ℕ) (seen : IntakeDb) (dto : CreateBooking)
    (same : dto.idempotency_key ≡ some key) where
  store-IsFound :
      (category : ℕ) (lane : BookingLane) (place : ℤ × ℤ) (terms : LaneTerms)
      → Yields (IsFound key) (store_booking now client category seen dto lane place terms)
  store-IsFound category lane place terms =
      search
        (
          bind-Yields,
          handled-Yields,
          λ (attached : Option ℕ).
              insert-IsFound key (new_booking now client category dto lane place terms attached)
                same,
          λ (e : IntakeError). winner-IsFound key dto.idempotency_key e same,
        )
        depth 12

  lane-IsFound :
      (category : ℕ) (c : ServiceCategory) (lane : BookingLane) (place : ℤ × ℤ)
      → Yields (IsFound key) (create_in_lane now client category seen c dto lane place)
  lane-IsFound category c lane place = search (bind-Yields, sequence-Yields, store-IsFound) depth 12

  new-IsFound : Yields (IsFound key) (create_new now client seen dto)
  unfolding create_new
  new-IsFound = search (bind-Yields, sequence-Yields, lane-IsFound) depth 12

replay-IsFound :
    (key now client : ℕ) (dto : CreateBooking) (db t : IntakeDb) (o : Option (ℕ × PostedBooking))
    (a : ℕ × PostedBooking)
    → dto.idempotency_key ≡ some key
    → find_by_key key db ≡ o
    → replay_or_create now client db dto o db ≡ (done a, t)
    → IsFound key a t
unfolding replay_or_create
replay-IsFound key now client dto db t none a same found h =
    (new-IsFound key now client db dto same).on_done db t a h
replay-IsFound key now client dto db t (some (id, b)) a same found h = ground (arith, h)

-- A client who sends a creation again with its key gets the booking of the first time, and the
-- second request creates nothing: the booking found by the key is theirs, and the user is still
-- that client.
pub create_twice :
    (now later key user client id : ℕ) (dto : CreateBooking) (b : PostedBooking) (db db' : IntakeDb)
    → dto.idempotency_key ≡ some key
    → create_booking now user db dto db ≡ (done (id, b), db')
    → b.client_profile_id ≡ client
    → db'.clients user ≡ some client
    → create_booking later user db' dto db' ≡ (done (id, b), db')
unfolding create_booking replay_or_create
create_twice now later key user client id dto b db db' same h own known =
    elim (Option-cases (db.clients user)) [
      | inl missing ↦ absurd (ground (arith, rw missing at h))
      | inr (first, found) ↦ rw known (again first found)
    ]
  where
    by_key : (t : IntakeDb) → found_by dto.idempotency_key t ≡ find_by_key key t
    by_key t = ap (λ k. found_by k t) same

    again :
        (first : ℕ)
        → db.clients user ≡ some first
        → replay_or_create later client db' dto (found_by dto.idempotency_key db') db'
          ≡ (done (id, b), db')
    again first found =
        rw
          (by_key db'
            ∙ replay-IsFound key now first dto db db' (found_by dto.idempotency_key db) (id, b) same
                (sym (by_key db)) (rw found at h))
          (ground (arith, own))
