-- ===== src/Bids/Transactions.antt =====
-- The writes of backend/src/modules/bids/bids.repository.ts. A bid is unique by booking and worker.
use Prim.Native.String.{String}
use easyrepair.Prelude.{
  ℕ, suc, Bool, true, false, not, ◌&&◌, Option, none, some, ◌==◌, Table, put, update_many,
  find_first,
}
use easyrepair.Schema.{BookingStatus, BidStatus, Booking, Bid}
use easyrepair.Store.{
  Result, ok, err, record_not_found, Db, ◌>>=◌, Transaction, booking_update_if, add_history,
  occupy_worker,
}
use easyrepair.Bookings.Transactions.{is_hireable}

-- `findExistingBid` and `findMyBidOnBooking`: the row of a booking and a worker.
unfoldable pub find_existing_bid : (booking worker : ℕ) → Db → Option (ℕ × Bid)
find_existing_bid booking worker db =
    find_first (λ _ (b : Bid). b.booking_id == booking && b.worker_profile_id == worker) db.next_bid
      db.bids

abbrev pub new_bid : (booking worker amount : ℕ) → Option String → (now : ℕ) → Bid
new_bid booking worker amount message now = record {
  booking_id = booking;
  worker_profile_id = worker;
  amount = amount;
  message = message;
  status = BidStatus.pending;
  edit_count = 0;
  updated_at = now;
}

-- `createBid`: where the row is there already, P2002 is caught and the row returned.
unfoldable pub create_bid :
    (booking worker amount : ℕ) → Option String → (now : ℕ) → Transaction Bid
unfolding find_existing_bid
create_bid booking worker amount message now db = elim (find_existing_bid booking worker db) [
  | some (_, existing) ↦ ok (existing, db)
  | none ↦
      let bid = new_bid booking worker amount message now in
      ok (bid, record db { bids = put db.next_bid bid db.bids; next_bid = suc db.next_bid })
]

-- `bid.update({ where: { id }, data })` and the row read again.
bid_update : ℕ → (Bid → Bid) → Transaction Bid
bid_update id change db = elim (db.bids id) [
  | none ↦ err record_not_found
  | some b ↦ ok (change b, record db { bids = put id (change b) db.bids })
]

-- `updateBid`; `updatedAt` is set by the database client.
unfoldable pub update_bid : (id amount : ℕ) → Option String → (now : ℕ) → Transaction Bid
unfolding bid_update
update_bid id amount message now = bid_update id (λ b. record b {
  amount = amount;
  message = message;
  edit_count = suc b.edit_count;
  updated_at = now;
})

-- `updateBidAmountAndMessage`
unfoldable pub update_bid_amount_and_message :
    (id amount : ℕ) → Option String → (now : ℕ) → Transaction Bid
unfolding bid_update
update_bid_amount_and_message id amount message now =
    bid_update id (λ b. record b { amount = amount; message = message; updated_at = now })

-- The booking row read inside the transaction.
booking_of : ℕ → Db → Result Booking
booking_of id db = elim (db.bookings id) [ none ↦ err record_not_found | some b ↦ ok b ]

-- The two bid writes of `acceptBid`: this bid ACCEPTED, every other bid on the booking REJECTED.
abbrev pub choose_bid : (bid booking : ℕ) → Bid → Table Bid → Table Bid
choose_bid bid booking chosen bids =
    update_many (λ i (b : Bid). b.booking_id == booking && not (i == bid))
      (λ (b : Bid). record b { status = BidStatus.rejected })
      (put bid (record chosen { status = BidStatus.accepted }) bids)

-- `acceptBid`: the booking with the worker's and client's rows, and `changed`.
unfoldable pub accept_bid :
    (bid booking worker final_price platform_fee now : ℕ) → Transaction (Booking × Bool)
unfolding booking_of
accept_bid bid booking worker final_price platform_fee now db =
    elim (booking_update_if booking is_hireable
      (λ b. record b {
        worker_profile_id = some worker;
        status = BookingStatus.accepted;
        accepted_at = some now;
        final_price = some final_price;
        platform_fee = some platform_fee;
      })
      db) [
        | none ↦ do row ← booking_of booking db; ok ((row, false), db)
        | some db₁ ↦ elim (db₁.bids bid) [
          | none ↦ err record_not_found
          | some chosen ↦ do
            row ← booking_of booking db₁
            db₂ ← occupy_worker worker (
                add_history booking BookingStatus.accepted "Bid accepted by client"
                  (record db₁ { bids = choose_bid bid booking chosen db₁.bids }))
            ok ((row, true), db₂)
        ]
      ]
