-- ===== src/Tests/Sample.antt =====
-- Sample rows: a client (user 100), two workers (users 201 and 202), an open STANDARD job (1), an
-- open BIDDING job (2) with a bid of each worker, and an INSPECTION job in progress with its
-- report.
use easyrepair.Prelude.{ℕ, ℤ, Bool, true, false, Option, none, some, [], ◌∷◌, arith, Table, put}
use easyrepair.Schema.{
  BookingStatus, BookingLane, BidStatus, InspectionDecisionStatus, WorkerStatus,
  WorkerOnboardingStatus, AvailabilityStatus, WorkerProfile, Place, Booking, Bid, InspectionReport,
}
use easyrepair.Store.{Db}
use easyrepair.Bookings.Consistency.{IsConsistent}

abbrev pub place : Place
place = record {
  address_line = "12 Canal Road";
  city = "Lahore";
  latitude = ℤ.pos 31520400;
  longitude = ℤ.pos 74358700;
}

abbrev pub worker : (user : ℕ) → (busy : Bool) → WorkerProfile
worker user busy = record {
  user_id = user;
  status = WorkerStatus.active;
  onboarding_status = WorkerOnboardingStatus.approved;
  profile_completed = true;
  availability_status = AvailabilityStatus.online;
  currently_working = busy;
  current_lat = some (ℤ.pos 31520400);
  current_lng = some (ℤ.pos 74358700);
  location_updated_at = some 1000;
  last_seen_at = some 1000;
  rating = 45;
  total_ratings = 2;
  skills = 7 ∷ [];
}

abbrev pub booking : BookingLane → BookingStatus → Option ℕ → Booking
booking lane status worker = record {
  client_profile_id = 1;
  worker_profile_id = worker;
  category_id = 7;
  status = status;
  lane = lane;
  title = some "Leaking tap";
  description = "The kitchen tap leaks";
  place = place;
  inspection = false;
  created_at = 500;
  accepted_at = none;
  en_route_at = none;
  arrived_at = none;
  started_at = none;
  completed_at = none;
  cancelled_at = none;
  cancellation_reason = none;
  cancelled_by_role = none;
  expires_at = some 900000;
  live_started_at = some 500;
  relisted_at = none;
  standard_service_price_snapshot = some 150000;
  standard_service_items = [];
  inspection_fee_snapshot = some 50000;
  final_price = none;
  platform_fee = none;
  source_inspection_booking_id = none;
}

abbrev pub bid : (worker amount : ℕ) → Bid
bid worker amount = record {
  booking_id = 2;
  worker_profile_id = worker;
  amount = amount;
  message = none;
  status = BidStatus.pending;
  edit_count = 0;
  updated_at = 600;
}

abbrev no_rows : {A : Type 0} → Table A
no_rows i = none

abbrev pub open_db : Db
open_db = record {
  clients = put 1 (record { user_id = 100 }) no_rows;
  workers = put 1 (worker 201 false) (put 2 (worker 202 false) no_rows);
  bookings =
      put 1 (booking BookingLane.standard BookingStatus.pending none)
        (put 2 (booking BookingLane.bidding BookingStatus.pending none) no_rows);
  bids = put 1 (bid 1 200000) (put 2 (bid 2 180000) no_rows);
  reports = no_rows;
  reviews = no_rows;
  history = [];
  exclusions = [];
  next_client = 2;
  next_worker = 3;
  next_booking = 3;
  next_bid = 3;
  next_report = 0;
  outbox = [];
}

abbrev pub report : InspectionReport
report = record {
  booking_id = 1;
  worker_profile_id = 1;
  labour_cost = 300000;
  parts_total = 120000;
  repair_quote_total = 420000;
  decision_status = InspectionDecisionStatus.pending_client_decision;
  accepted_at = none;
  closed_at = none;
}

abbrev pub inspection_db : Db
inspection_db = record {
  clients = put 1 (record { user_id = 100 }) no_rows;
  workers = put 1 (worker 201 true) (put 2 (worker 202 false) no_rows);
  bookings = put 1 (booking BookingLane.inspection BookingStatus.in_progress (some 1)) no_rows;
  bids = no_rows;
  reports = put 1 report no_rows;
  reviews = no_rows;
  history = [];
  exclusions = [];
  next_client = 2;
  next_worker = 3;
  next_booking = 2;
  next_bid = 0;
  next_report = 2;
  outbox = [];
}

pub open_db-IsConsistent : IsConsistent open_db
open_db-IsConsistent = record {
  staffed = λ i. ground arith;
  busy = λ i w e. ground arith;
  single = λ i j w e f. ground arith;
  numbered = λ i h. ground arith;
}

pub inspection_db-IsConsistent : IsConsistent inspection_db
inspection_db-IsConsistent = record {
  staffed = λ i. ground arith;
  busy = λ i w e. ground arith;
  single = λ i j w e f. ground arith;
  numbered = λ i h. ground arith;
}
