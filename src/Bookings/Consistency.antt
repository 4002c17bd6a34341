-- ===== src/Bookings/Consistency.antt =====
-- Who works on what: the invariant of bookings and workers, and the changes of the two tables that
-- the transactions are made of.
use easyrepair.Prelude.{
  is_row, ℕ, suc, ◌≤◌, ◌<◌, ◌≡◌, ◌≢◌, ◌⊎◌, refl, inl, inr, Bool, true, false, not, ◌&&◌, ◌||◌,
  Option, none, some, arith, ◌==◌, if◌then◌else◌, Bool-cases, is_some, Table, put, put_rule,
}
use easyrepair.Schema.{BookingStatus, Booking, WorkerProfile}
use easyrepair.Store.{Db}

-- ACTIVE_BOOKING_STATUSES of worker-stats.util.ts
abbrev pub is_active : BookingStatus → Bool
is_active BookingStatus.accepted = true
is_active BookingStatus.en_route = true
is_active BookingStatus.arrived = true
is_active BookingStatus.in_progress = true
is_active _ = false

-- PENDING, or EXPIRED and so ready to be made live again.
abbrev pub is_open : BookingStatus → Bool
is_open BookingStatus.pending = true
is_open BookingStatus.expired = true
is_open _ = false

abbrev pub is_busy : Option WorkerProfile → Bool
is_busy = is_row (λ (w : WorkerProfile). w.currently_working)

-- The worker of a booking while it is active.
abbrev pub working_on : Option Booking → Option ℕ
working_on none = none
working_on (some b) = if is_active b.status then b.worker_profile_id else none

abbrev is_manned : Booking → Bool
is_manned b = not (is_active b.status) || is_some b.worker_profile_id

abbrev is_free_if_open : Booking → Bool
is_free_if_open b = not (is_open b.status) || not (is_some b.worker_profile_id)

-- An active booking has a worker, and an open one has none.
abbrev pub is_well_staffed : Booking → Bool
is_well_staffed b = is_manned b && is_free_if_open b

abbrev pub is_staffed : Option Booking → Bool
is_staffed none = true
is_staffed (some b) = is_well_staffed b

pub record IsStaffed (bookings : Table Booking) (workers : Table WorkerProfile) (bound : ℕ)
    : Type 0 where
  pub staffed : (i : ℕ) → is_staffed (bookings i) ≡ true
  pub busy : (i w : ℕ) → working_on (bookings i) ≡ some w → is_busy (workers w) ≡ true
  pub single :
      (i j w : ℕ) → working_on (bookings i) ≡ some w → working_on (bookings j) ≡ some w → i ≡ j
  pub numbered : (i : ℕ) → bound ≤ i → bookings i ≡ none

abbrev pub IsConsistent : Db → Type 0
IsConsistent db = IsStaffed db.bookings db.workers db.next_booking

module _ {bookings : Table Booking} {workers : Table WorkerProfile} {bound : ℕ}
    (c : IsStaffed bookings workers bound) where
  -- A row that is there is numbered below the bound.
  below_bound : (k : ℕ) {b : Booking} → bookings k ≡ some b → k < bound
  below_bound k e = ground (arith, c.numbered k)

  -- The row stops being active, or stays active with its worker.
  pub keep :
      (k : ℕ) {b : Booking} (b' : Booking)
      → bookings k ≡ some b
      → is_well_staffed b' ≡ true
      → (working_on (some b') ≡ none) ⊎ (working_on (some b') ≡ working_on (some b))
      → IsStaffed (put k b' bookings) workers bound
  keep k {b} b' found good same = record {
    staffed = put_rule (λ i o. is_staffed o ≡ true) k b' bookings good c.staffed;
    busy =
        put_rule (λ i o. (w : ℕ) → working_on o ≡ some w → is_busy (workers w) ≡ true) k b' bookings
          (λ w e. c.busy k w (from w e)) c.busy;
    single = λ i j w e f. c.single i j w (were i w e) (were j w f);
    numbered =
        put_rule (λ i o. bound ≤ i → o ≡ none) k b' bookings
          (λ h. absurd (omega (arith, below_bound k found))) c.numbered;
  }
    where
      from : (w : ℕ) → working_on (some b') ≡ some w → working_on (bookings k) ≡ some w
      from w e = rw found (elim same [ inl gone ↦ cc | inr kept ↦ cc ])

      were :
          (i w : ℕ) → working_on (put k b' bookings i) ≡ some w → working_on (bookings i) ≡ some w
      were i w =
          put_rule (λ i o. working_on o ≡ some w → working_on (bookings i) ≡ some w) k b' bookings
            (from w) (λ i e. e) i

  -- A worker who is busy already, or who works on nothing, may be written with any flag that fits.
  pub mark :
      (w : ℕ) (p : WorkerProfile)
      → ((i : ℕ) → working_on (bookings i) ≡ some w → p.currently_working ≡ true)
      → IsStaffed bookings (put w p workers) bound
  mark w p fits = record {
    staffed = c.staffed;
    busy = λ i v e.
        put_rule (λ x o. working_on (bookings i) ≡ some x → is_busy o ≡ true) w p workers (fits i)
          (c.busy i) v e;
    single = c.single;
    numbered = c.numbered;
  }

  -- A worker who is not busy works on nothing.
  idle :
      (w : ℕ) {p : WorkerProfile}
      → workers w ≡ some p
      → p.currently_working ≡ false
      → (i : ℕ) → working_on (bookings i) ≢ some w
  idle w found free i e = ground (arith, c.busy i w e)

  -- The hire: a row that was not active becomes active with a worker who was not busy.
  pub take :
      (k w : ℕ) {b : Booking} (b' : Booking) {p : WorkerProfile} (p' : WorkerProfile)
      → bookings k ≡ some b
      → workers w ≡ some p
      → p.currently_working ≡ false
      → p'.currently_working ≡ true
      → is_well_staffed b' ≡ true
      → working_on (some b') ≡ some w
      → IsStaffed (put k b' bookings) (put w p' workers) bound
  take k w {b} b' p' found there free busy good on = record {
    staffed = put_rule (λ i o. is_staffed o ≡ true) k b' bookings good c.staffed;
    busy = λ i v e. now_busy i v (origin i v e);
    single = λ i j v e f. alone i j v (origin i v e) (origin j v f);
    numbered =
        put_rule (λ i o. bound ≤ i → o ≡ none) k b' bookings
          (λ h. absurd (omega (arith, below_bound k found))) c.numbered;
  }
    where
      Origin : ℕ → ℕ → Type 0
      Origin i v = ((k ≡ i) × (v ≡ w)) ⊎ ((v ≢ w) × (working_on (bookings i) ≡ some v))

      not_idle : (i v : ℕ) → working_on (bookings i) ≡ some v → v ≢ w
      not_idle i v e h = idle w there free i (rw (← h) e)

      origin : (i v : ℕ) → working_on (put k b' bookings i) ≡ some v → Origin i v
      origin i =
          put_rule (λ i o. (v : ℕ) → working_on o ≡ some v → Origin i v) k b' bookings
            (λ v e. inl (refl, cc)) (λ i v e. inr (not_idle i v e, e)) i

      now_busy : (i v : ℕ) → Origin i v → is_busy (put w p' workers v) ≡ true
      now_busy i v (inl (_, same)) = ground arith
      now_busy i v (inr (other, e)) = ground (arith, c.busy i v e)

      alone : (i j v : ℕ) → Origin i v → Origin j v → i ≡ j
      alone i j v (inl (here, _)) (inl (there', _)) = cc
      alone i j v (inl (_, same)) (inr (other, _)) = absurd (other same)
      alone i j v (inr (other, _)) (inl (_, same)) = absurd (other same)
      alone i j v (inr (_, e)) (inr (_, f)) = c.single i j v e f

  -- A new row that is not active.
  pub add :
      (b : Booking)
      → is_well_staffed b ≡ true
      → working_on (some b) ≡ none
      → IsStaffed (put bound b bookings) workers (suc bound)
  add b good done = record {
    staffed = put_rule (λ i o. is_staffed o ≡ true) bound b bookings good c.staffed;
    busy =
        put_rule (λ i o. (w : ℕ) → working_on o ≡ some w → is_busy (workers w) ≡ true) bound b
          bookings (λ w e. cc) c.busy;
    single = λ i j w e f. c.single i j w (were i w e) (were j w f);
    numbered = λ i h. ground (arith, c.numbered i);
  }
    where
      were :
          (i w : ℕ)
          → working_on (put bound b bookings i) ≡ some w
          → working_on (bookings i) ≡ some w
      were i w =
          put_rule (λ i o. working_on o ≡ some w → working_on (bookings i) ≡ some w) bound b
            bookings (λ e. cc) (λ i e. e) i

-- The end of a job: the row stops being active, and its worker is written anew.
pub finish :
    {bookings : Table Booking} {workers : Table WorkerProfile} {bound : ℕ}
    → IsStaffed bookings workers bound
    → (k w : ℕ) {b : Booking} (b' : Booking) (p : WorkerProfile) → bookings k ≡ some b
    → is_well_staffed b' ≡ true
    → working_on (some b') ≡ none
    → working_on (some b) ≡ some w
    → IsStaffed (put k b' bookings) (put w p workers) bound
finish {bookings} c k w b' p found good done was =
    mark (keep c k b' found good (inl done)) w p (λ i e. absurd (gone i e))
  where
    gone : (i : ℕ) → working_on (put k b' bookings i) ≢ some w
    gone i = elim (Bool-cases (k == i)) [
      | inl same ↦ rw same (λ e. cc)
      | inr other ↦ rw other (λ e. ground (arith, c.single i k w e (rw found was)))
    ]
