-- ===== src/Eligibility/Laws.antt =====
-- What the single matcher decides, and how its two modes compare.
use easyrepair.Prelude.{
  ℕ, ℤ, ◌+◌, ◌≤◌, ◌≡◌, ◌≢◌, ◌↔◌, ◌⊎◌, true, false, none, some, arith, or_else, holds_id,
}
use easyrepair.Schema.{
  BookingStatus, WorkerStatus, WorkerOnboardingStatus, AvailabilityStatus, WorkerProfile,
}
use easyrepair.Eligibility.{
  JobEligibilityBooking, JobEligibilityOptions, MatchingConfig, default_job_match_radius_km,
  location_freshness_ms, includes, haversine_km, check_job_eligibility, is_eligible_for_job,
}

module _ (config : MatchingConfig) (great_circle : ℤ → ℤ → ℤ → ℤ → ℕ) where
  module _ (now worker_id : ℕ) (worker : WorkerProfile) (booking : JobEligibilityBooking) where
    -- The job can be offered at all: it is open, unassigned and inside the discovery window.
    pub record IsOpenJob : Type 0 where
      pub pending : (booking.status ≡ none) ⊎ (booking.status ≡ some BookingStatus.pending)
      pub unassigned : booking.worker_profile_id ≡ none
      pub recent :
          (booking.created_at ≡ none)
          ⊎ ((c : ℕ) × (booking.created_at ≡ some c) × (now ≤ c + config.job_discovery_window_ms))

    -- The worker may be offered jobs like it.
    pub record IsMatch (options : JobEligibilityOptions) : Type 0 where
      pub active : worker.status ≡ WorkerStatus.active
      pub approved : worker.onboarding_status ≡ WorkerOnboardingStatus.approved
      pub completed : worker.profile_completed ≡ true
      pub no_inspector : holds_id options.inspecting_worker_profile_id worker_id ≡ false
      pub not_excluded : includes worker_id booking.worker_exclusions ≡ false
      pub skilled : includes booking.category_id worker.skills ≡ true
      pub free : worker.currently_working ≡ false
      pub near :
          (d : ℕ) × (haversine_km great_circle booking.latitude booking.longitude worker.current_lat
              worker.current_lng
            ≡ some d)
          × (d ≤ or_else options.radius_km default_job_match_radius_km)

    -- The worker is live: online, seen and located recently.
    pub record IsLive : Type 0 where
      pub online : worker.availability_status ≡ AvailabilityStatus.online
      pub seen :
          (t : ℕ) × (worker.last_seen_at ≡ some t) × (now ≤ t + config.worker_presence_stale_ms)
      pub located :
          (t : ℕ) × (worker.location_updated_at ≡ some t) × (now ≤ t + location_freshness_ms)

    eligible-IsOpenJob :
        (options : JobEligibilityOptions)
        → check_job_eligibility config great_circle now worker_id worker booking options ≡ none
        → IsOpenJob
    unfolding check_job_eligibility
    eligible-IsOpenJob options h = ground arith

    eligible-IsMatch :
        (options : JobEligibilityOptions)
        → check_job_eligibility config great_circle now worker_id worker booking options ≡ none
        → IsMatch options
    unfolding check_job_eligibility
    eligible-IsMatch options h = ground arith

    eligible-IsLive :
        (options : JobEligibilityOptions)
        → or_else options.require_live_presence true ≡ true
        → check_job_eligibility config great_circle now worker_id worker booking options ≡ none
        → IsLive
    unfolding check_job_eligibility
    eligible-IsLive options l h = ground arith

    eligible_of :
        (options : JobEligibilityOptions)
        → IsOpenJob
        → IsMatch options
        → (or_else options.require_live_presence true ≡ true → IsLive)
        → check_job_eligibility config great_circle now worker_id worker booking options ≡ none
    unfolding check_job_eligibility
    eligible_of options job match live = ground arith

    -- A worker is eligible for a job exactly when the job is open, unassigned and inside the
    -- discovery window, the worker is an approved, free, skilled, not excluded match inside the
    -- radius, and, unless `requireLivePresence` is false, online with a fresh presence and location.
    pub is_eligible_for_job_iff :
        (options : JobEligibilityOptions)
        → (is_eligible_for_job config great_circle now worker_id worker booking options ≡ true) ↔ (
            IsOpenJob
            × IsMatch options
            × (or_else options.require_live_presence true ≡ true → IsLive))
    unfolding is_eligible_for_job
    is_eligible_for_job_iff options = (
      λ e.
          let h : check_job_eligibility config great_circle now worker_id worker booking options
              ≡ none =
            ground arith in
          (
            eligible-IsOpenJob options h,
            eligible-IsMatch options h,
            λ l. eligible-IsLive options l h,
          ),
      λ p. rw (eligible_of options p.0 p.1 p.2),
    )

    eligible_browsing :
        (options : JobEligibilityOptions)
        → is_eligible_for_job config great_circle now worker_id worker booking options ≡ true
        → is_eligible_for_job config great_circle now worker_id worker booking
            (record options { require_live_presence = some false })
          ≡ true
    unfolding is_eligible_for_job check_job_eligibility
    eligible_browsing options h = ground arith

    eligible_without_inspector :
        (options : JobEligibilityOptions)
        → is_eligible_for_job config great_circle now worker_id worker booking options ≡ true
        → (options.inspecting_worker_profile_id ≢ some worker_id)
          × (is_eligible_for_job config great_circle now worker_id worker booking
                (record options { inspecting_worker_profile_id = none })
              ≡ true)
    unfolding is_eligible_for_job check_job_eligibility
    eligible_without_inspector options h = (λ e. ground arith, ground arith)

    -- Who may be offered a job live may also see it in the marketplace (`requireLivePresence` false),
    -- with the same other options; is not the inspector that the options name; and is eligible with no
    -- inspector named.
    pub eligible_loosened :
        (options : JobEligibilityOptions)
        → is_eligible_for_job config great_circle now worker_id worker booking options ≡ true
        → (is_eligible_for_job config great_circle now worker_id worker booking
              (record options { require_live_presence = some false })
            ≡ true)
          × (options.inspecting_worker_profile_id ≢ some worker_id)
          × (is_eligible_for_job config great_circle now worker_id worker booking
                (record options { inspecting_worker_profile_id = none })
              ≡ true)
    eligible_loosened options h =
        let (other, without) = eligible_without_inspector options h in
        (eligible_browsing options h, other, without)
