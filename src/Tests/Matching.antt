-- ===== src/Tests/Matching.antt =====
-- The matcher on a sample worker and job.
use easyrepair.Prelude.{ℕ, ℤ, ◌≡◌, ◌↔◌, refl, true, false, none, some, [], ◌∷◌, or_else}
use easyrepair.Schema.{BookingStatus}
use easyrepair.Eligibility.{
  MatchingConfig, JobEligibilityBooking, JobEligibilityOptions, includes, haversine_km,
  check_job_eligibility, is_eligible_for_job,
}
use easyrepair.Eligibility.Laws.{IsOpenJob, IsMatch, IsLive, is_eligible_for_job_iff}
use easyrepair.Tests.Sample.{worker}

abbrev config : MatchingConfig
config = record { worker_presence_stale_ms = 60000; job_discovery_window_ms = 259200000 }

abbrev nearby : ℤ → ℤ → ℤ → ℤ → ℕ
nearby a b c d = 120

abbrev job : JobEligibilityBooking
job = record {
  category_id = 7;
  latitude = ℤ.pos 31520400;
  longitude = ℤ.pos 74358700;
  status = some BookingStatus.pending;
  worker_profile_id = none;
  worker_exclusions = 5 ∷ [];
  created_at = some 500;
}

abbrev options : JobEligibilityOptions
options = record {
  radius_km = some 500;
  inspecting_worker_profile_id = some 2;
  require_live_presence = none;
}

eligible : is_eligible_for_job config nearby 2000 1 (worker 201 false) job options ≡ true
unfolding is_eligible_for_job check_job_eligibility includes haversine_km
eligible = refl

is_eligible_for_job_iff_example :
    (is_eligible_for_job config nearby 2000 1 (worker 201 false) job options ≡ true) ↔ (
      IsOpenJob config nearby 2000 1 (worker 201 false) job
      × IsMatch config nearby 2000 1 (worker 201 false) job options
      × (or_else options.require_live_presence true ≡ true
          → IsLive config nearby 2000 1 (worker 201 false) job))
is_eligible_for_job_iff_example =
    is_eligible_for_job_iff config nearby 2000 1 (worker 201 false) job options
