-- ===== src/Catalog/InStep.antt =====
-- The providers in service (app/multi_provider.py) against the catalog of app/db.py.
use prismux.Prelude.{◌≡◌, Option, none, some, lookup, Str, text_eq}
use prismux.Provider.Config.{ProviderConfig}
use prismux.Provider.Runtime.{Runtime}
use prismux.Provider.Registry.{Registry}
use prismux.Catalog.{Catalog, ProviderRow}

abbrev pub config_in : Option Runtime → Option ProviderConfig
config_in none = none
config_in (some r) = some r.config

abbrev pub config_at : Option ProviderRow → Option ProviderConfig
config_at none = none
config_at (some row) = some row.config

-- The registry serves the providers of the catalog, with their settings.
abbrev pub InStep : Registry → Catalog → Type 0
InStep registry c =
    (id : Str) → config_in (lookup id registry.providers) ≡ config_at (lookup id c.providers)
