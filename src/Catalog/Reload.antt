-- ===== src/Catalog/Reload.antt =====
-- `reload_registry` of app/main.py, with the constructor of `ProviderRegistry` of
-- app/multi_provider.py: the providers in service are made anew from the catalog.
-- `decrypt` is the cipher's, `none` where it raises; `ticks` is the number of clock ticks in a second.
use prismux.Prelude.{
  ℕ, ◌*◌, Bool, not, Option, none, some, List, [], ◌∷◌, Dict, lookup, Str, text_eq, is_blank,
  if◌then◌else◌,
}
use prismux.Limiter
use prismux.Limiter.{TokenBucket}
use prismux.Pricing.{Rates, Prices, pricing_of}
use prismux.Provider.Config.{ProviderConfig, RouteTarget}
use prismux.Provider.Capacity
use prismux.Provider.Runtime.{Runtime, unknown, no_error}
use prismux.Provider.Registry
use prismux.Provider.Registry.{Registry, Result, ok, err, inherit_health}
use prismux.Catalog.{Catalog, ProviderRow, PriceRow, list_providers, load_routes, load_pricing}

-- The API key and the secret headers that are encrypted together.
pub record Credentials : Type 0 where
  pub api_key : Str
  pub secret_headers : Dict Str Str

pub record App : Type 0 where
  pub catalog : Catalog
  pub registry : Registry
  pub bucket : TokenBucket
  pub model_routes : Dict Str Str
  pub provider_pricing : Prices
  pub pricing : Dict Str Rates
  pub legacy_api_keys : Dict Str Str

-- The state after the function returned or raised.
pub data Outcome : Type 0 where
  done raised : App → Outcome

abbrev pub no_credentials : Credentials
no_credentials = record { api_key = []; secret_headers = [] }

abbrev pub key_or : Str → Option Str → Str
key_or key none = key
key_or key (some legacy) = if is_blank key then legacy else key

-- `ProviderRuntime(config, make_adapter(...), CapacityController(config), ...)`
abbrev pub runtime_of : ℕ → ProviderConfig → Option Str → Credentials → Runtime
runtime_of now config legacy credentials =
    let key = key_or credentials.api_key legacy in
    record {
      config = config;
      api_key = key;
      secret_headers = credentials.secret_headers;
      capacity = Capacity.new config now;
      api_key_configured = not (is_blank key);
      health = unknown;
      last_health_error = no_error;
      last_checked_at = none;
    }

abbrev pub prices_of : List PriceRow → Prices
prices_of [] = []
prices_of (row ∷ rows) = ((row.provider_id, row.model_id), row.rates) ∷ prices_of rows

-- The model of the first target of each route that has one.
abbrev pub first_models : Dict Str (List RouteTarget) → Dict Str Str
first_models [] = []
first_models ((alias, []) ∷ routes) = first_models routes
first_models ((alias, t ∷ ts) ∷ routes) = (alias, t.model) ∷ first_models routes

module _ (ticks : ℕ) (text_before : Str → Str → Bool) (decrypt : Str → Option Credentials) where
  abbrev pub credentials_of : Option Str → Option Credentials
  credentials_of none = some no_credentials
  credentials_of (some encrypted) =
      if is_blank encrypted then some no_credentials else decrypt encrypted

  abbrev pub add_runtime :
      ℕ
      → ProviderConfig
      → Option Str
      → Option Credentials
      → Option (Dict Str Runtime)
      → Option (Dict Str Runtime)
  add_runtime now config legacy none rest = none
  add_runtime now config legacy (some credentials) none = none
  add_runtime now config legacy (some credentials) (some rest) =
      some ((config.id, runtime_of now config legacy credentials) ∷ rest)

  unfoldable pub build :
      ℕ → Dict Str Str → Dict Str Str → Dict Str ProviderRow → Option (Dict Str Runtime)
  build now stored legacy [] = some []
  build now stored legacy ((id, row) ∷ rows) =
      add_runtime now row.config (lookup id legacy) (credentials_of (lookup id stored))
        (build now stored legacy rows)

  abbrev pub with_default : ℕ → App → Result Runtime → Outcome
  with_default now app (err e) = raised app
  with_default now app (ok runtime) =
      let prices = prices_of (load_pricing text_before app.catalog) in
      done (record app {
        bucket = bucket_or runtime.capacity.request_bucket;
        model_routes = first_models app.registry.routes;
        provider_pricing = prices;
        pricing = pricing_of runtime.config.id prices;
      })
    where
      bucket_or : Option TokenBucket → TokenBucket
      bucket_or none = Limiter.new 1000000 (1000000 * (60 * ticks)) now
      bucket_or (some b) = b

  abbrev pub with_runtimes : ℕ → App → Option (Dict Str Runtime) → Outcome
  with_runtimes now app none = raised app
  with_runtimes now app (some runtimes) =
      let registry =
        inherit_health (some app.registry)
          (record { providers = runtimes; routes = load_routes text_before app.catalog }) in
      with_default now (record app { registry = registry }) (Registry.default registry)

  unfoldable pub reload_registry : ℕ → App → Outcome
  reload_registry now app = with_runtimes now app (
      build now app.catalog.credentials app.legacy_api_keys
        (list_providers text_before app.catalog))
