-- ===== src/Eligibility.antt =====
-- backend/src/common/utils/job-eligibility.util.ts and geo.util.ts: whether a worker may be offered
-- a job. The two windows come from the environment and are the record `MatchingConfig`; the
-- great-circle distance, a float computation, is the parameter `great_circle`, in hundredths of a
-- kilometre as `toFixed(2)` leaves it.
pub mod Laws
use easyrepair.Prelude.{
  ℕ, zero, suc, ℤ, ◌+◌, ◌-◌, ◌*◌, ◌/◌, ◌%◌, ◌≤◌, ◌<◌, min, max, ◌≡◌, ◌≢◌, ◌↔◌, ◌⊎◌, refl, sym, ap,
  ◌∙◌, inl, inr, Bool, true, false, not, ◌&&◌, ◌||◌, Option, none, some, List, [], ◌∷◌, ◌++◌, map,
  arith, ltb, leb, ◌==◌, if◌then◌else◌, Bool-cases, Option-cases, is_some, or_else, or_other,
  holds_id, Table, put, revise, update_many, find_first, find_first-some, find_first-none,
}
use easyrepair.Schema.{
  BookingStatus, WorkerProfile, is_pending, is_active_account, is_approved, is_online,
}

pub data JobIneligibilityReason : Type 0 where
  not_approved is_inspector excluded category_mismatch offline busy stale_presence stale_location
        out_of_radius not_open already_assigned discovery_window_expired :
      JobIneligibilityReason

pub record JobEligibilityBooking : Type 0 where
  pub category_id : ℕ
  pub latitude : ℤ
  pub longitude : ℤ
  pub status : Option BookingStatus
  pub worker_profile_id : Option ℕ
  pub worker_exclusions : List ℕ
  pub created_at : Option ℕ

pub record JobEligibilityOptions : Type 0 where
  pub radius_km : Option ℕ
  pub inspecting_worker_profile_id : Option ℕ
  pub require_live_presence : Option Bool

pub record MatchingConfig : Type 0 where
  pub worker_presence_stale_ms : ℕ
  pub job_discovery_window_ms : ℕ

-- DEFAULT_JOB_MATCH_RADIUS_KM, in hundredths of a kilometre.
abbrev pub default_job_match_radius_km : ℕ
default_job_match_radius_km = 700

abbrev pub location_freshness_ms : ℕ
location_freshness_ms = 30 * 60 * 1000

-- `list.some((x) => x === id)`
unfoldable pub includes : ℕ → List ℕ → Bool
includes a [] = false
includes a (x ∷ xs) = x == a || includes a xs

-- `status != null && status !== PENDING`
abbrev pub is_not_open : Option BookingStatus → Bool
is_not_open none = false
is_not_open (some s) = not (is_pending s)

-- `Date.now() - at > window`; an instant in the future is not past any window.
abbrev pub older_than : ℕ → ℕ → ℕ → Bool
older_than window now at = ltb window (now - at)

-- `at != null && Date.now() - at > window`
abbrev pub known_older_than : ℕ → ℕ → Option ℕ → Bool
known_older_than window now none = false
known_older_than window now (some at) = older_than window now at

-- `!at || Date.now() - at > window`
abbrev pub missing_or_older_than : ℕ → ℕ → Option ℕ → Bool
missing_or_older_than window now none = true
missing_or_older_than window now (some at) = older_than window now at

-- `distanceKm == null || distanceKm > radiusKm`
abbrev pub beyond : ℕ → Option ℕ → Bool
beyond radius none = true
beyond radius (some d) = ltb radius d

-- `haversineKm`, with the formula itself a parameter.
unfoldable pub haversine_km :
    (great_circle : ℤ → ℤ → ℤ → ℤ → ℕ) → ℤ → ℤ → Option ℤ → Option ℤ → Option ℕ
haversine_km great_circle lat lng (some lat') (some lng') = some (great_circle lat lng lat' lng')
haversine_km great_circle lat lng _ _ = none

module _ (config : MatchingConfig) (great_circle : ℤ → ℤ → ℤ → ℤ → ℕ) where
  -- `now` is `Date.now()`, and `worker_id` the worker's `id`. `none` is `null`: eligible.
  unfoldable pub check_job_eligibility :
      (now worker_id : ℕ)
      → WorkerProfile
      → JobEligibilityBooking
      → JobEligibilityOptions
      → Option JobIneligibilityReason
  check_job_eligibility now worker_id worker booking options =
      let radius_km = or_else options.radius_km default_job_match_radius_km in
      let live = or_else options.require_live_presence true in
      let distance_km =
        haversine_km great_circle booking.latitude booking.longitude worker.current_lat
          worker.current_lng in
      if is_not_open booking.status
      then some not_open
      else if is_some booking.worker_profile_id
      then some already_assigned
      else if known_older_than config.job_discovery_window_ms now booking.created_at
      then some discovery_window_expired
      else if not (is_active_account worker.status)
          || (not (is_approved worker.onboarding_status) || not worker.profile_completed)
      then some not_approved
      else if holds_id options.inspecting_worker_profile_id worker_id
      then some is_inspector
      else if includes worker_id booking.worker_exclusions
      then some excluded
      else if not (includes booking.category_id worker.skills)
      then some category_mismatch
      else if live && not (is_online worker.availability_status)
      then some offline
      else if worker.currently_working
      then some busy
      else if live && missing_or_older_than config.worker_presence_stale_ms now worker.last_seen_at
      then some stale_presence
      else if live && missing_or_older_than location_freshness_ms now worker.location_updated_at
      then some stale_location
      else if beyond radius_km distance_km
      then some out_of_radius
      else none

  -- `isEligibleForJob`
  unfoldable pub is_eligible_for_job :
      (now worker_id : ℕ) → WorkerProfile → JobEligibilityBooking → JobEligibilityOptions → Bool
  is_eligible_for_job now worker_id worker booking options =
      not (is_some (check_job_eligibility now worker_id worker booking options))
