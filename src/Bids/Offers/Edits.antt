-- ===== src/Bids/Offers/Edits.antt =====
-- How often, and how soon, a worker may change a bid.
use Prim.Native.String.{String}
use easyrepair.Prelude.{
  ℕ, suc, ℤ, ◌+◌, ◌≤◌, ◌≡◌, ◌⊎◌, refl, subst, inl, inr, true, Option, some, arith, leb,
  Option-cases, is_row,
}
use easyrepair.Schema.{Bid, WorkerProfile}
use easyrepair.Eligibility.{MatchingConfig}
use easyrepair.Store.{Result, ok, err, Db}
use easyrepair.Store.Actions.{IsReading, reading_rule, ◌>>=◌}
use easyrepair.Bids.Transactions.{update_bid}
use easyrepair.Bids.Offers.{
  authorize_bidder, check_edit, commit_edit, edit_bid, assert_may_bid, assert_cooldown_elapsed,
  bid_cooldown_ms,
}

-- A request that was refused, and wrote nothing.
abbrev pub IsRefused : {A : Type 0} → Result A × Db → Db → Type 0
IsRefused (ok _, db') db = ⊥
IsRefused (err _, db') db = db' ≡ db

-- What holds of a request that was refused, and of one that returns.
abbrev pub EditOutcome : (now id : ℕ) → Bid → Db → Result Bid × Db → Type 0
EditOutcome now id bid db (err _, db') = db' ≡ db
EditOutcome now id bid db (ok b, db') =
    (bid.edit_count ≡ 0)
    × (bid.updated_at + bid_cooldown_ms ≤ now)
    × ((old : Bid) × (db.bids id ≡ some old) × (b.edit_count ≡ suc old.edit_count))
    × (db'.bids id ≡ some b)
    × (b.updated_at ≡ now)

-- The same with the bid that the request read, if it read one.
abbrev pub ReadEdit : (now id : ℕ) → (seen db : Db) → Result Bid × Db → Type 0
ReadEdit now id seen db r =
    IsRefused r db ⊎ ((bid : Bid) × (seen.bids id ≡ some bid) × EditOutcome now id bid db r)

spent :
    (now id : ℕ) (db : Db) (b : Bid) (db' : Db)
    → ReadEdit now id db db (ok b, db')
    → is_row (λ (bid : Bid). leb 1 bid.edit_count) (db'.bids id) ≡ true
spent now id db b db' (inl impossible) = absurd impossible
spent now id db b db' (inr (bid, read, outcome)) = ground arith

no_further_edit :
    (now id : ℕ) (db : Db) (r : Result Bid × Db)
    → is_row (λ (bid : Bid). leb 1 bid.edit_count) (db.bids id) ≡ true
    → ReadEdit now id db db r
    → IsRefused r db
no_further_edit now id db (err e, db') h (inl refused) = refused
no_further_edit now id db (err e, db') h (inr (bid, read, outcome)) = outcome
no_further_edit now id db (ok b, db') h (inl refused) = refused
no_further_edit now id db (ok b, db') h (inr (bid, read, outcome)) = absurd (ground arith)

authorize_bidder-IsReading : (user id : ℕ) → IsReading (authorize_bidder user id)
unfolding authorize_bidder
authorize_bidder-IsReading user id seen db = ground arith

authorize_bidder-bid :
    (user id : ℕ) (seen db : Db) (r : (ℕ × WorkerProfile) × Bid)
    → (authorize_bidder user id seen db).0 ≡ ok r
    → seen.bids id ≡ some r.1
unfolding authorize_bidder
authorize_bidder-bid user id seen db r h = ground arith

commit_edit_outcome :
    (now id amount : ℕ) (message : Option String) (bid : Bid) (seen db : Db)
    → bid.edit_count ≡ 0
    → EditOutcome now id bid db (commit_edit now id amount message bid seen db)
unfolding commit_edit assert_cooldown_elapsed update_bid
commit_edit_outcome now id amount message bid seen db fresh = elim (Option-cases (db.bids id)) [
  | inl missing ↦ ground arith
  | inr (old, there) ↦ ground arith
]

module _ (config : MatchingConfig) (great_circle : ℤ → ℤ → ℤ → ℤ → ℕ) (radius_km : ℕ) where
  check_edit-IsReading :
      (now worker_id : ℕ) (worker : WorkerProfile) (bid : Bid)
      → IsReading (check_edit config great_circle radius_km now worker_id worker bid)
  unfolding check_edit assert_may_bid
  check_edit-IsReading now worker_id worker bid seen db = ground arith

  check_edit-fresh :
      (now worker_id : ℕ) (worker : WorkerProfile) (bid : Bid) (seen db : Db) (u : Unit {0})
      → (check_edit config great_circle radius_km now worker_id worker bid seen db).0 ≡ ok u
      → bid.edit_count ≡ 0
  unfolding check_edit
  check_edit-fresh now worker_id worker bid seen db u h = ground arith

  commit_after_check :
      (now worker_id id amount : ℕ) (message : Option String) (worker : WorkerProfile) (bid : Bid)
      (seen db : Db)
      → EditOutcome now id bid db (
          (check_edit config great_circle radius_km now worker_id worker bid >>= λ _.
          commit_edit now id amount message bid)
            seen db)
  commit_after_check now worker_id id amount message worker bid seen db =
      reading_rule (EditOutcome now id bid db)
        (check_edit config great_circle radius_km now worker_id worker bid)
        (λ _. commit_edit now id amount message bid) seen db
        (check_edit-IsReading now worker_id worker bid) (λ e. refl)
        (λ u found.
          commit_edit_outcome now id amount message bid seen db
            (check_edit-fresh now worker_id worker bid seen db u found))

  -- `editBid` that throws writes nothing, and one that returns had read the bid unedited and at
  -- least 60 seconds old, and wrote the row that it returns, with `editCount` one more than it was
  -- and `updatedAt` the present.
  pub edit_bid_outcome :
      (now user id amount : ℕ) (message : Option String) (seen db : Db)
      → ReadEdit now id seen db
          (edit_bid config great_circle radius_km now user id amount message seen db)
  unfolding edit_bid
  edit_bid_outcome now user id amount message seen db =
      reading_rule (ReadEdit now id seen db) (authorize_bidder user id)
        (λ r. check_edit config great_circle radius_km now r.0.0 r.0.1 r.1 >>= λ _.
          commit_edit now id amount message r.1)
        seen db (authorize_bidder-IsReading user id) (λ e. inl refl)
        (λ r found. inr (
          r.1,
          authorize_bidder-bid user id seen db r found,
          commit_after_check now r.0.0 id amount message r.0.1 r.1 seen db,
        ))

  -- After an `editBid` that succeeds, every further `editBid` of the same bid, at any time and by
  -- any user, is refused and writes nothing, where no other request comes in between.
  pub edit_bid_once :
      (now now' user user' id amount amount' : ℕ) (message message' : Option String) (db db' : Db)
      (b : Bid)
      → edit_bid config great_circle radius_km now user id amount message db db ≡ (ok b, db')
      → IsRefused
          (edit_bid config great_circle radius_km now' user' id amount' message' db' db')
          db'
  edit_bid_once now now' user user' id amount amount' message message' db db' b done =
      no_further_edit now' id db'
        (edit_bid config great_circle radius_km now' user' id amount' message' db' db')
        (spent now id db b db'
          (subst (ReadEdit now id db db) done (edit_bid_outcome now user id amount message db db)))
        (edit_bid_outcome now' user' id amount' message' db' db')
