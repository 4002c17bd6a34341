-- ===== src/Bids/Acceptance/Safety.antt =====
-- What accepting a bid does, whatever happened between its reads and its transaction.
use easyrepair.Prelude.{
  ℕ, ◌≡◌, ◌⊎◌, refl, subst, inl, inr, Bool, true, false, not, ◌&&◌, ◌||◌, some, arith, ◌==◌,
  if◌then◌else◌, Bool-cases, Option-cases, holds_id, is_row,
}
use easyrepair.Schema.{Booking, Bid, is_bid_accepted, is_bid_rejected}
use easyrepair.Commission.{calculate_platform_fee}
use easyrepair.Store.{Result, ok, err, Db}
use easyrepair.Store.Actions.{IsReading, reading_rule}
use easyrepair.Bookings.Hiring.Safety.{NewHire, hired_not_hireable}
use easyrepair.Bids.Transactions.{accept_bid}
use easyrepair.Bids.Acceptance.{
  check_acceptable, settle_accept, commit_accept, accept_owned, authorize_bid, accept_bid_request,
}

-- The booking carries the bid's amount and the platform's share of it.
abbrev pub is_priced : ℕ → Booking → Bool
is_priced amount b =
    holds_id b.final_price amount && holds_id b.platform_fee (calculate_platform_fee amount)

-- On this booking exactly the chosen bid is ACCEPTED, and all others are REJECTED.
abbrev pub is_decided : (booking chosen : ℕ) → ℕ → Bid → Bool
is_decided booking chosen i b =
    if i == chosen
    then is_bid_accepted b.status
    else not (b.booking_id == booking) || is_bid_rejected b.status

-- A bid was accepted: a hire of its worker at its price, with all bids on the booking decided.
pub record NewAccept (id booking worker amount : ℕ) (db db' : Db) : Type 0 where
  pub hire : NewHire booking worker db db'
  pub priced : is_row (is_priced amount) (db'.bookings booking) ≡ true
  pub chosen : is_row (λ (b : Bid). is_bid_accepted b.status) (db'.bids id) ≡ true
  pub decided : (i : ℕ) (b : Bid) → db'.bids i ≡ some b → is_decided booking id i b ≡ true

abbrev AcceptOutcome : (id booking worker amount : ℕ) → Db → Result ((Booking × Bool) × Db) → Type 0
AcceptOutcome id booking worker amount db (err e) = Unit
AcceptOutcome id booking worker amount db (ok ((b, false), db')) = db' ≡ db
AcceptOutcome id booking worker amount db (ok ((b, true), db')) =
    NewAccept id booking worker amount db db'

accept_outcome :
    (id booking worker amount now : ℕ) (db : Db)
    → AcceptOutcome id booking worker amount db
        (accept_bid id booking worker amount (calculate_platform_fee amount) now db)
unfolding accept_bid
accept_outcome id booking worker amount now db = elim (Option-cases (db.bookings booking)) [
  | inl missing ↦ ground arith
  | inr (b, found) ↦ elim (Option-cases (db.bids id)) [
    | inl no_bid ↦ ground arith
    | inr (bid, there) ↦ ground arith
  ]
]

-- A request that throws has written nothing to the tables; one that returns wrote nothing either, or
-- accepted the bid as it had read it.
abbrev pub RequestOutcome : (id : ℕ) → Bid → Db → Result (Unit {0}) × Db → Type 0
RequestOutcome id bid db (err e, db') = db' ≡ db
RequestOutcome id bid db (ok _, db') =
    (db' ≡ db) ⊎ NewAccept id bid.booking_id bid.worker_profile_id bid.amount db db'

commit_accept_outcome :
    (now id : ℕ) (bid : Bid) (seen db : Db)
    → RequestOutcome id bid db (commit_accept now id bid seen db)
unfolding commit_accept settle_accept
commit_accept_outcome now id bid seen db =
    ground (arith, accept_outcome id bid.booking_id bid.worker_profile_id bid.amount now db)

pub check_acceptable-IsReading :
    (bid : Bid) (booking : Booking) → IsReading (check_acceptable bid booking)
unfolding check_acceptable
check_acceptable-IsReading bid booking seen db = ground arith

accept_owned_outcome :
    (now id : ℕ) (bid : Bid) (booking : Booking) (seen db : Db)
    → RequestOutcome id bid db (accept_owned now id bid booking seen db)
unfolding accept_owned
accept_owned_outcome now id bid booking seen db =
    elim (Bool-cases
      (is_bid_accepted bid.status && holds_id booking.worker_profile_id bid.worker_profile_id)) [
        | inl done ↦ rw done (inl refl)
        | inr still ↦ rw still (
            reading_rule (RequestOutcome id bid db) (check_acceptable bid booking)
              (λ _. commit_accept now id bid) seen db (check_acceptable-IsReading bid booking)
              (λ e. refl) (λ u found. commit_accept_outcome now id bid seen db))
      ]

pub authorize_bid-IsReading : (user id : ℕ) → IsReading (authorize_bid user id)
unfolding authorize_bid
authorize_bid-IsReading user id seen db = ground arith

authorize_bid-bid :
    (user id : ℕ) (seen db : Db) (r : Bid × Booking)
    → (authorize_bid user id seen db).0 ≡ ok r
    → seen.bids id ≡ some r.0
unfolding authorize_bid
authorize_bid-bid user id seen db r h = ground arith

-- What the request may do, with the bid that it read.
abbrev pub ReadOutcome : (id : ℕ) → (seen db : Db) → Result (Unit {0}) × Db → Type 0
ReadOutcome id seen db r =
    (r.1 ≡ db) ⊎ ((bid : Bid) × (seen.bids id ≡ some bid) × RequestOutcome id bid db r)

-- Whatever the client's `acceptBid` read before, and whatever was written in between, it either
-- leaves the database as its transaction found it, or it read the bid, and then: if it throws it
-- has written nothing; if it returns it wrote nothing or accepted that bid, on a booking that was
-- PENDING and unassigned, of a worker who was assignable and is busy afterwards, with the bid's
-- amount as the price and the platform's share as the fee, this bid ACCEPTED and every other bid
-- on the booking REJECTED.
pub accept_bid_outcome :
    (now user id : ℕ) (seen db : Db)
    → ReadOutcome id seen db (accept_bid_request now user id seen db)
unfolding accept_bid_request
accept_bid_outcome now user id seen db =
    reading_rule (ReadOutcome id seen db) (authorize_bid user id) (λ r. accept_owned now id r.0 r.1)
      seen db (authorize_bid-IsReading user id) (λ e. inl refl)
      (λ r found. inr (
        r.0,
        authorize_bid-bid user id seen db r found,
        accept_owned_outcome now id r.0 r.1 seen db,
      ))

accept_after_hire :
    (id worker : ℕ) (bid : Bid) (before db : Db) (r : Result (Unit {0}) × Db)
    → NewHire bid.booking_id worker before db
    → RequestOutcome id bid db r
    → r.1 ≡ db
accept_after_hire id worker bid before db (err e, db') hire h = h
accept_after_hire id worker bid before db (ok _, db') hire (inl same) = same
accept_after_hire id worker bid before db (ok _, db') hire (inr new) = absurd (
    ground (
      arith,
      new.hire.was_hireable,
      hired_not_hireable worker (db.bookings bid.booking_id) hire.hired,
    ))

-- Once a worker has been hired for the booking of a bid, `acceptBid` on that bid writes nothing,
-- however stale the rows that it had read.
pub racing_accepts :
    (now user id worker : ℕ) (bid : Bid) (seen before db : Db)
    → seen.bids id ≡ some bid
    → NewHire bid.booking_id worker before db
    → (accept_bid_request now user id seen db).1 ≡ db
racing_accepts now user id worker bid seen before db read hire =
    elim (accept_bid_outcome now user id seen db) [
      | inl same ↦ same
      | inr (bid', read', outcome) ↦
          accept_after_hire id worker bid before db (accept_bid_request now user id seen db) hire (
            subst (λ b. RequestOutcome id b db (accept_bid_request now user id seen db))
              (same_row read' read) outcome)
    ]
  where
    same_row : {a b : Bid} → seen.bids id ≡ some a → seen.bids id ≡ some b → a ≡ b
    same_row e f = cc
