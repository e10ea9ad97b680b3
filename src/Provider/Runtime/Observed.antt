-- ===== src/Provider/Runtime/Observed.antt =====
-- What `observe_status` of app/multi_provider.py makes of an upstream's answer.
use prismux.Prelude.{ℕ, ◌<◌, ◌≡◌, ◌≢◌, ◌↔◌, true, false, some, ℕ_eq, ap, arith}
use prismux.Provider.Runtime.{healthy, degraded, Runtime, falls_back, mark_health, observe_status}

falls_back-not_auth : (code : ℕ) → falls_back code ≡ true → (code ≢ 401) × (code ≢ 403)
unfolding falls_back
falls_back-not_auth code h = (λ e. cc (ap falls_back e, h), λ e. cc (ap falls_back e, h))

-- An answer makes a provider healthy exactly when it is neither 401 nor 403, is below 500, and does
-- not fall back to the next target; an answer that falls back makes it degraded. In any case the
-- provider is seen at the time of the answer, and its settings and limits stay.
pub observe_status-health :
    (code now : ℕ) (r : Runtime)
    → ((observe_status code now r).health ≡ healthy
        ↔ ((code ≢ 401) × (code ≢ 403) × (code < 500) × (falls_back code ≡ false)))
      × (falls_back code ≡ true → (observe_status code now r).health ≡ degraded)
      × ((observe_status code now r).last_checked_at ≡ some now)
      × ((observe_status code now r).config ≡ r.config)
      × ((observe_status code now r).capacity ≡ r.capacity)
unfolding observe_status mark_health
observe_status-health code now r =
    let k = falls_back-not_auth code in
    (ground (arith, k), ground (arith, k), ground arith, ground arith, ground arith)
