-- ===== src/Schema/Rows.antt =====
-- The rows of the tables that the modelled code reads and writes, backend/prisma/schema.prisma.
-- Ids (uuids in the source) are only compared, so they are numbers, and the id of a row is its
-- number in its table. Instants are milliseconds; prices are hundredths of a rupee; a rating, a
-- float that is always rounded to one decimal, is in tenths.
use Prim.Native.String.{String}
use easyrepair.Prelude.{ℕ, ℤ, Bool, Option, List}
use easyrepair.Schema.Enums.{
  BookingStatus, BookingLane, BidStatus, InspectionDecisionStatus, WorkerStatus,
  WorkerOnboardingStatus, AvailabilityStatus, CancelledByRole,
}

pub record ClientProfile : Type 0 where
  pub user_id : ℕ

pub record WorkerProfile : Type 0 where
  pub user_id : ℕ
  pub status : WorkerStatus
  pub onboarding_status : WorkerOnboardingStatus
  pub profile_completed : Bool
  pub availability_status : AvailabilityStatus
  pub currently_working : Bool
  pub current_lat : Option ℤ
  pub current_lng : Option ℤ
  pub location_updated_at : Option ℕ
  pub last_seen_at : Option ℕ
  pub rating : ℕ
  pub total_ratings : ℕ
  pub skills : List ℕ

-- Where the work is: the fields `addressLine`, `city`, `latitude` and `longitude`.
pub record Place : Type 0 where
  pub address_line : String
  pub city : String
  pub latitude : ℤ
  pub longitude : ℤ

-- A row of `bookingStandardServiceItem`, by what the hire reads of it.
pub record StandardServiceItem : Type 0 where
  pub price_snapshot : ℕ
  pub quantity : ℕ

pub record Booking : Type 0 where
  pub client_profile_id : ℕ
  pub worker_profile_id : Option ℕ
  pub category_id : ℕ
  pub status : BookingStatus
  pub lane : BookingLane
  pub title : Option String
  pub description : String
  pub place : Place
  pub inspection : Bool
  pub created_at : ℕ
  pub accepted_at : Option ℕ
  pub en_route_at : Option ℕ
  pub arrived_at : Option ℕ
  pub started_at : Option ℕ
  pub completed_at : Option ℕ
  pub cancelled_at : Option ℕ
  pub cancellation_reason : Option String
  pub cancelled_by_role : Option CancelledByRole
  pub expires_at : Option ℕ
  pub live_started_at : Option ℕ
  pub relisted_at : Option ℕ
  pub standard_service_price_snapshot : Option ℕ
  pub standard_service_items : List StandardServiceItem
  pub inspection_fee_snapshot : Option ℕ
  pub final_price : Option ℕ
  pub platform_fee : Option ℕ
  pub source_inspection_booking_id : Option ℕ

pub record Bid : Type 0 where
  pub booking_id : ℕ
  pub worker_profile_id : ℕ
  pub amount : ℕ
  pub message : Option String
  pub status : BidStatus
  pub edit_count : ℕ
  pub updated_at : ℕ

pub record InspectionReport : Type 0 where
  pub booking_id : ℕ
  pub worker_profile_id : ℕ
  pub labour_cost : ℕ
  pub parts_total : ℕ
  pub repair_quote_total : ℕ
  pub decision_status : InspectionDecisionStatus
  pub accepted_at : Option ℕ
  pub closed_at : Option ℕ

pub record BookingWorkerExclusion : Type 0 where
  pub booking_id : ℕ
  pub worker_profile_id : ℕ
  pub reason : String

pub record BookingStatusHistory : Type 0 where
  pub booking_id : ℕ
  pub status : BookingStatus
  pub note : String

pub record Review : Type 0 where
  pub rating : ℕ
  pub comment : Option String
