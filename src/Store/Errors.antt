-- ===== src/Store/Errors.antt =====
-- What a request may throw: Nest's HTTP exceptions with the reason that the message gives, and the
-- errors of the database layer.
use Prim.Native.Nat.{ℕ}

pub data Reason : Type 0 where
  client_profile_not_found worker_profile_not_found booking_not_found worker_not_found : Reason
  bid_not_found bid_not_owned bid_not_yours bid_not_available : Reason
  not_your_booking not_assigned_to_booking wrong_status booking_assigned : Reason
  open_for_bidding wrong_lane not_eligible worker_not_available worker_profile_incomplete : Reason
  worker_just_hired not_reopenable no_previous_worker not_expired : Reason
  start_inspection_first report_missing waiting_for_client already_closed : Reason
  no_assigned_worker not_completed already_reviewed already_decided link_missing : Reason
  inspection_state_changed inspector_busy worker_no_longer_available report_not_found : Reason
  report_exists not_finding_other account_not_active profile_incomplete bidding_closed : Reason
  edited_already not_eligible_for_job : Reason

pub data Error : Type 0 where
  forbidden not_found bad_request conflict : Reason → Error
  -- 429 with `cooldownRemainingSeconds`
  too_many_requests : ℕ → Error
  -- Prisma's P2025
  record_not_found : Error
  -- P2002
  unique_violation : Error
  -- common/errors/worker-unavailable.error.ts
  worker_unavailable : Error
  -- the InspectionCloseStateError of bookings.repository.ts
  inspection_close_state : Error

pub data Result (A : Type 0) : Type 0 where
  ok : A → Result A
  err : Error → Result A
