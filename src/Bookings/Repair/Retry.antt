-- ===== src/Bookings/Repair/Retry.antt =====
-- The retry of `closeInspectionAndOpenRepairBidding`.
use easyrepair.Prelude.{ℕ, ◌≡◌, Bool, true, some, arith, find_first, is_row}
use easyrepair.Schema.{Booking, InspectionReport, is_find_other}
use easyrepair.Store.{Db, ok}
use easyrepair.Bookings.Repair.{
  created, CloseInspectionParams, already_done, find_repair_booking, close_and_open,
  close_inspection_and_open_repair_bidding, child_booking, resolve_lost_guard,
}

abbrev is_decided_other : InspectionReport → Bool
is_decided_other r = is_find_other r.decision_status

-- The switch was made with this child.
record Switched (p : CloseInspectionParams) (child : ℕ) (db : Db) : Type 0 where
  pub decided : is_row is_decided_other (db.reports p.report_id) ≡ true
  pub linked : (b : Booking) × (find_repair_booking p.original_booking_id db ≡ some (child, b))

switched :
    (p : CloseInspectionParams) (now expires_at child : ℕ) (db db' : Db)
    → close_and_open p now expires_at db ≡ ok (some child, db')
    → Switched p child db'
unfolding close_and_open find_repair_booking find_first
switched p now expires_at child db db' done = record {
  decided = ground arith;
  linked = (child_booking p now expires_at, ground arith);
}

switch_again :
    (p : CloseInspectionParams) (now expires_at child : ℕ) (db : Db)
    → Switched p child db
    → close_inspection_and_open_repair_bidding p now expires_at db ≡ ok (already_done child, db)
unfolding close_inspection_and_open_repair_bidding close_and_open resolve_lost_guard
switch_again p now expires_at child db s = ground (arith, s.decided, s.linked.1)

created_by :
    (p : CloseInspectionParams) (now expires_at child : ℕ) (db db' : Db)
    → close_inspection_and_open_repair_bidding p now expires_at db ≡ ok (created child, db')
    → close_and_open p now expires_at db ≡ ok (some child, db')
unfolding close_inspection_and_open_repair_bidding resolve_lost_guard
created_by p now expires_at child db db' done = ground arith

-- When the switch to other workers has opened the repair booking `child`, the same switch asked for
-- again, at any time, writes nothing and answers that `child` is open already.
pub switch_once :
    (p : CloseInspectionParams) (now now' expires_at expires_at' child : ℕ) (db db' : Db)
    → close_inspection_and_open_repair_bidding p now expires_at db ≡ ok (created child, db')
    → close_inspection_and_open_repair_bidding p now' expires_at' db' ≡ ok (already_done child, db')
switch_once p now now' expires_at expires_at' child db db' done =
    switch_again p now' expires_at' child db'
      (switched p now expires_at child db db' (created_by p now expires_at child db db' done))
