-- ===== src/Intake/Selection.antt =====
-- What a client may choose: the lanes of a category,
-- backend/src/modules/categories/category-lanes.ts, the standard services,
-- `_resolveStandardServiceSelection`, and an earlier inspection, `_resolveAttachedInspection` of
-- backend/src/modules/bookings/bookings.service.ts with attachable-inspection.util.ts.
use easyrepair.Prelude.{
  ℕ, ◌+◌, ◌*◌, Bool, true, false, not, ◌&&◌, ◌||◌, Option, none, some, List, [], ◌∷◌, ◌++◌, ◌==◌,
  if◌then◌else◌, is_some, Table, is_row,
}
use easyrepair.Steps.{pure, require, reject_if, ◌>>=◌, ◌>>◌}
use easyrepair.Schema.{BookingLane, InspectionDecisionStatus, is_completed}
use easyrepair.Intake.State.{
  is_inspection, same_lane, is_bidding_lane, ServiceCategory, StandardService, SelectedService,
  PostedBooking, Intake, lane_not_offered, nothing_selected, service_not_found,
  service_not_available, not_a_bidding_job, not_attachable, other_service,
}

-- `resolveSoleLane`
abbrev pub resolve_sole_lane : Option BookingLane → (inspection_only : Bool) → Option BookingLane
resolve_sole_lane (some lane) inspection_only = some lane
resolve_sole_lane none true = some BookingLane.inspection
resolve_sole_lane none false = none

abbrev pub is_offered : Option BookingLane → BookingLane → Bool
is_offered none lane = true
is_offered (some sole) lane = same_lane lane sole

-- `assertLaneAllowed`
abbrev pub assert_lane_allowed : ServiceCategory → BookingLane → Intake (Unit {0})
assert_lane_allowed category lane =
    reject_if
      (not (is_offered (resolve_sole_lane category.sole_lane category.inspection_only) lane))
      lane_not_offered

unfoldable pub is_member : ℕ → List ℕ → Bool
is_member id [] = false
is_member id (i ∷ ids) = let rest = is_member id ids in i == id || rest

-- `Array.from(new Set(ids))`, with the ids that were seen before.
unfoldable pub unique_ids : (before : List ℕ) → List ℕ → List ℕ
unfolding is_member
unique_ids before [] = []
unique_ids before (id ∷ ids) =
    let rest = unique_ids (id ∷ before) ids in if is_member id before then rest else id ∷ rest

-- The first error over the services of the selection, in the order of the source's tests: any that
-- is missing, then any that is not available.
unfoldable pub all_found : Table StandardService → List ℕ → Bool
all_found services [] = true
all_found services (id ∷ ids) = let rest = all_found services ids in is_some (services id) && rest

abbrev pub is_available : (category : ℕ) → StandardService → Bool
is_available category s = s.is_active && s.category_id == category

unfoldable pub all_available : (category : ℕ) → Table StandardService → List ℕ → Bool
all_available category services [] = true
all_available category services (id ∷ ids) =
    let rest = all_available category services ids in
    is_row (is_available category) (services id) && rest

abbrev pub selected : ℕ → Option StandardService → List SelectedService
selected id none = []
selected id (some s) =
    record { standard_service_id = id; price_snapshot = s.price; quantity = 1 } ∷ []

unfoldable pub select_services : Table StandardService → List ℕ → List SelectedService
select_services services [] = []
select_services services (id ∷ ids) = selected id (services id) ++ select_services services ids

-- `standardServiceItems.reduce(…)`
unfoldable pub price_of : List SelectedService → ℕ
price_of [] = 0
price_of (item ∷ items) = item.price_snapshot * item.quantity + price_of items

abbrev pub is_empty : List ℕ → Bool
is_empty [] = true
is_empty (_ ∷ _) = false

-- `_resolveStandardServiceSelection`; the legacy fields repeat the first item.
unfoldable pub resolve_standard_service_selection :
    Table StandardService → (category : ℕ) → List ℕ → Intake (List SelectedService)
unfolding unique_ids all_found all_available select_services
resolve_standard_service_selection services category requested = do
  reject_if (is_empty requested) nothing_selected
  reject_if (not (all_found services (unique_ids [] requested))) service_not_found
  reject_if (not (all_available category services (unique_ids [] requested))) service_not_available
  pure (select_services services (unique_ids [] requested))

-- `isAttachableDecisionStatus`
abbrev pub is_attachable_decision_status : Option InspectionDecisionStatus → Bool
is_attachable_decision_status (some InspectionDecisionStatus.closed_after_inspection) = true
is_attachable_decision_status (some InspectionDecisionStatus.accepted_repair) = true
is_attachable_decision_status _ = false

-- `_resolveAttachedInspection`
unfoldable pub resolve_attached_inspection :
    Table PostedBooking → (client category : ℕ) → BookingLane → Option ℕ → Intake (Option ℕ)
resolve_attached_inspection bookings client category lane none = pure none
resolve_attached_inspection bookings client category lane (some requested) = do
  reject_if (not (is_bidding_lane lane)) not_a_bidding_job
  source ← require (bookings requested) not_attachable
  reject_if (not (source.client_profile_id == client)) not_attachable
  reject_if (not (is_inspection source.lane)) not_attachable
  reject_if (not (is_completed source.status)) not_attachable
  reject_if (not (is_attachable_decision_status source.report)) not_attachable
  reject_if (not (source.category_id == category)) other_service
  pure (some requested)
