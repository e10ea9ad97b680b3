-- ===== src/Provider/Runtime/Tests.antt =====
-- `observe_status` of app/multi_provider.py at concrete inputs.
use prismux.Prelude.{ℕ, ◌<◌, ◌≡◌, ◌≢◌, ◌↔◌, refl, true, false, none, some, [], text}
use prismux.Provider.Capacity
use prismux.Provider.Capacity.Tests.{config}
use prismux.Provider.Runtime.{
  Runtime, healthy, degraded, unknown, no_error, falls_back, mark_health, observe_status,
}
use prismux.Provider.Runtime.Observed.{observe_status-health}

abbrev pub runtime : Runtime
runtime = record {
  config = config;
  api_key = text "sk-1";
  secret_headers = [];
  capacity = Capacity.new config 0;
  api_key_configured = true;
  health = unknown;
  last_health_error = no_error;
  last_checked_at = none;
}

overloaded : (observe_status 529 7 runtime).health ≡ degraded
unfolding observe_status mark_health falls_back
overloaded = refl

observe_status-health_example :
    ((observe_status 404 7 runtime).health ≡ healthy
      ↔ ((◌≢◌ {A = ℕ} 404 401) × (◌≢◌ {A = ℕ} 404 403) × (404 < 500) × (falls_back 404 ≡ false)))
    × (falls_back 404 ≡ true → (observe_status 404 7 runtime).health ≡ degraded)
    × ((observe_status 404 7 runtime).last_checked_at ≡ some 7)
    × ((observe_status 404 7 runtime).config ≡ config)
    × ((observe_status 404 7 runtime).capacity ≡ Capacity.new config 0)
observe_status-health_example = observe_status-health 404 7 runtime
