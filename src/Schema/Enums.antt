-- ===== src/Schema/Enums.antt =====
-- The enums of backend/prisma/schema.prisma that the modelled code reads.
use easyrepair.Prelude.{Bool, true, false}

pub data BookingStatus : Type 0 where
  pending accepted en_route arrived in_progress completed rejected cancelled expired
        awaiting_confirmation settled :
      BookingStatus

pub data BookingLane : Type 0 where
  standard inspection bidding : BookingLane

pub data BidStatus : Type 0 where
  pending accepted rejected : BidStatus

pub data InspectionDecisionStatus : Type 0 where
  pending_client_decision accepted_repair closed_after_inspection find_other_ustaad :
      InspectionDecisionStatus

pub data WorkerStatus : Type 0 where
  active inactive suspended : WorkerStatus

pub data WorkerOnboardingStatus : Type 0 where
  draft submitted_for_review changes_required rejected approved : WorkerOnboardingStatus

pub data AvailabilityStatus : Type 0 where
  offline online busy : AvailabilityStatus

pub data CancelledByRole : Type 0 where
  client worker : CancelledByRole

abbrev pub is_pending : BookingStatus → Bool
is_pending BookingStatus.pending = true
is_pending _ = false

abbrev pub is_accepted : BookingStatus → Bool
is_accepted BookingStatus.accepted = true
is_accepted _ = false

abbrev pub is_en_route : BookingStatus → Bool
is_en_route BookingStatus.en_route = true
is_en_route _ = false

abbrev pub is_arrived : BookingStatus → Bool
is_arrived BookingStatus.arrived = true
is_arrived _ = false

abbrev pub is_in_progress : BookingStatus → Bool
is_in_progress BookingStatus.in_progress = true
is_in_progress _ = false

abbrev pub is_completed : BookingStatus → Bool
is_completed BookingStatus.completed = true
is_completed _ = false

abbrev pub is_cancelled : BookingStatus → Bool
is_cancelled BookingStatus.cancelled = true
is_cancelled _ = false

abbrev pub is_expired : BookingStatus → Bool
is_expired BookingStatus.expired = true
is_expired _ = false

abbrev pub is_standard : BookingLane → Bool
is_standard BookingLane.standard = true
is_standard _ = false

abbrev pub is_inspection : BookingLane → Bool
is_inspection BookingLane.inspection = true
is_inspection _ = false

abbrev pub is_bidding : BookingLane → Bool
is_bidding BookingLane.bidding = true
is_bidding _ = false

abbrev pub is_bid_pending : BidStatus → Bool
is_bid_pending BidStatus.pending = true
is_bid_pending _ = false

abbrev pub is_bid_accepted : BidStatus → Bool
is_bid_accepted BidStatus.accepted = true
is_bid_accepted _ = false

abbrev pub is_bid_rejected : BidStatus → Bool
is_bid_rejected BidStatus.rejected = true
is_bid_rejected _ = false

abbrev pub is_undecided : InspectionDecisionStatus → Bool
is_undecided InspectionDecisionStatus.pending_client_decision = true
is_undecided _ = false

abbrev pub is_accepted_repair : InspectionDecisionStatus → Bool
is_accepted_repair InspectionDecisionStatus.accepted_repair = true
is_accepted_repair _ = false

abbrev pub is_closed : InspectionDecisionStatus → Bool
is_closed InspectionDecisionStatus.closed_after_inspection = true
is_closed _ = false

abbrev pub is_find_other : InspectionDecisionStatus → Bool
is_find_other InspectionDecisionStatus.find_other_ustaad = true
is_find_other _ = false

abbrev pub is_active_account : WorkerStatus → Bool
is_active_account WorkerStatus.active = true
is_active_account _ = false

abbrev pub is_approved : WorkerOnboardingStatus → Bool
is_approved WorkerOnboardingStatus.approved = true
is_approved _ = false

abbrev pub is_online : AvailabilityStatus → Bool
is_online AvailabilityStatus.online = true
is_online _ = false

abbrev pub is_by_worker : CancelledByRole → Bool
is_by_worker CancelledByRole.worker = true
is_by_worker _ = false
