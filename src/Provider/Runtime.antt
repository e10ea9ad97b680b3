-- ===== src/Provider/Runtime.antt =====
-- `ProviderRuntime` of app/multi_provider.py: a provider in service, with its observed health.
pub mod Observed
pub mod Tests
use prismux.Prelude.{
  ℕ, Bool, true, false, ◌||◌, Option, none, some, List, [], ◌∷◌, Dict, Str, ℕ_eq, contains, leb,
  nat_eq, if◌then◌else◌,
}
use prismux.Provider.Config.{ProviderConfig}
use prismux.Provider.Capacity.{Capacity}

pub data Health : Type 0 where
  unknown healthy degraded offline auth_error : Health

-- The text of `last_health_error`, by what it is built from.
pub data HealthError : Type 0 where
  no_error : HealthError
  http_error : ℕ → HealthError
  blocked_by_policy : HealthError
  timed_out : ℕ → HealthError
  exception : Str → HealthError

pub record Runtime : Type 0 where
  pub config : ProviderConfig
  pub api_key : Str
  pub secret_headers : Dict Str Str
  pub capacity : Capacity
  pub api_key_configured : Bool
  pub health : Health
  pub last_health_error : HealthError
  pub last_checked_at : Option ℕ

abbrev pub fallback_status_codes : List ℕ
fallback_status_codes = 408 ∷ 429 ∷ 500 ∷ 502 ∷ 503 ∷ 504 ∷ 529 ∷ []

unfoldable pub falls_back : ℕ → Bool
falls_back code = contains fallback_status_codes code

unfoldable pub mark_health : Health → HealthError → ℕ → Runtime → Runtime
mark_health health error now r = record r {
  health = health;
  last_health_error = error;
  last_checked_at = some now;
}

unfoldable pub observe_status : ℕ → ℕ → Runtime → Runtime
observe_status code now r =
    if nat_eq code 401 || nat_eq code 403
    then mark_health auth_error (http_error code) now r
    else if falls_back code || leb 500 code
    then mark_health degraded (http_error code) now r
    else mark_health healthy no_error now r
