-- ===== src/Catalog.antt =====
-- The catalog of app/db.py: the tables of providers, their credentials and models, the model
-- routes and the prices. A `config_json` is kept as the settings that it denotes. The order of texts
-- is the database's, the parameter `text_before`, and the time is `now`. `none` is the database's
-- refusal of a reference that leads nowhere.
pub mod Reload
pub mod Valid
pub mod Handlers
pub mod InStep
pub mod Known
pub mod Reloaded
pub mod Kept
pub mod Routes
pub mod Tests
use prismux.Prelude.{
  ℕ, ◌+◌, Bool, true, false, not, ◌&&◌, ◌||◌, Option, none, some, List, [], ◌∷◌, ◌++◌, map, select,
  all, any, is_empty, Dict, lookup, insert, erase, has_key, map_values, Str, text_eq, ◌==◌,
  is_blank, ltb, sort_by, if◌then◌else◌,
}
use prismux.Pricing.{Rates}
use prismux.Provider.Config.{ProviderConfig, RouteTarget}

-- A row of `providers`; the columns `id` and `name` are those of the settings.
pub record ProviderRow : Type 0 where
  pub config : ProviderConfig
  pub enabled : Bool
  pub is_default : Bool
  pub created_at : ℕ
  pub updated_at : ℕ

pub record ModelRow : Type 0 where
  pub provider_id : Str
  pub model_id : Str
  pub discovered_at : ℕ

pub record RouteRow : Type 0 where
  pub alias : Str
  pub enabled : Bool
  pub updated_at : ℕ

pub record TargetRow : Type 0 where
  pub alias : Str
  pub priority : ℕ
  pub provider_id : Str
  pub model_id : Str

pub record PriceRow : Type 0 where
  pub provider_id : Str
  pub model_id : Str
  pub rates : Rates

pub record Catalog : Type 0 where
  pub providers : Dict Str ProviderRow
  pub credentials : Dict Str Str
  pub models : List ModelRow
  pub routes : List RouteRow
  pub targets : List TargetRow
  pub pricing : List PriceRow

abbrev pub no_default : ProviderRow → ProviderRow
no_default row = record row {
  is_default = false;
  config = record row.config { is_default = false };
}

-- `UPDATE providers SET is_default = 0`, and the same in each `config_json`.
abbrev pub clear_defaults : Bool → Dict Str ProviderRow → Dict Str ProviderRow
clear_defaults true providers = map_values no_default providers
clear_defaults false providers = providers

abbrev pub created : ℕ → Option ProviderRow → ℕ
created now none = now
created now (some row) = row.created_at

abbrev pub row_of : ℕ → ProviderConfig → Option ProviderRow → ProviderRow
row_of now config old = record {
  config = config;
  enabled = config.enabled;
  is_default = config.is_default;
  created_at = created now old;
  updated_at = now;
}

-- No credentials leave the stored ones, an empty text deletes them.
abbrev pub store_credentials : Str → Option Str → Dict Str Str → Dict Str Str
store_credentials id none stored = stored
store_credentials id (some encrypted) stored =
    if is_blank encrypted then erase id stored else insert id encrypted stored

unfoldable pub upsert_provider : ℕ → ProviderConfig → Option Str → Catalog → Catalog
upsert_provider now config encrypted_credentials c =
    let providers = clear_defaults config.is_default c.providers in
    record c {
      providers = insert config.id (row_of now config (lookup config.id providers)) providers;
      credentials = store_credentials config.id encrypted_credentials c.credentials;
    }

-- The rows that `ON DELETE CASCADE` takes along.
abbrev pub erase_provider : Str → Catalog → Catalog
erase_provider id c = record c {
  providers = erase id c.providers;
  credentials = erase id c.credentials;
  models = select (λ row. not (row.provider_id == id)) c.models;
  pricing = select (λ row. not (row.provider_id == id)) c.pricing;
}

abbrev pub refers_to : Str → TargetRow → Bool
refers_to id row = row.provider_id == id

unfoldable pub delete_provider : Str → Catalog → Option Catalog
delete_provider id c = if any (refers_to id) c.targets then none else some (erase_provider id c)

abbrev pub add_distinct : Str → List Str → List Str
add_distinct s ss = if any (λ t. t == s) ss then ss else s ∷ ss

abbrev pub aliases_of : List TargetRow → List Str
aliases_of [] = []
aliases_of (row ∷ rows) = add_distinct row.alias (aliases_of rows)

unfoldable pub provider_route_references : (Str → Str → Bool) → Str → Catalog → List Str
provider_route_references text_before id c =
    sort_by text_before (aliases_of (select (refers_to id) c.targets))

unfoldable pub replace_provider_models : ℕ → Str → List Str → Catalog → Option Catalog
replace_provider_models now id models c =
    let others = select (λ row. not (row.provider_id == id)) c.models in
    let found =
      map (λ model. record { provider_id = id; model_id = model; discovered_at = now }) models in
    if is_empty models || has_key id c.providers
    then some (record c { models = others ++ found })
    else none

unfoldable pub get_provider_models : (Str → Str → Bool) → Str → Catalog → List Str × Option ℕ
get_provider_models text_before id c =
    let rows =
      sort_by (λ x y. text_before x.model_id y.model_id)
        (select (λ row. row.provider_id == id) c.models) in
    (map (λ row. row.model_id) rows, first_time rows)
  where
    first_time : List ModelRow → Option ℕ
    first_time [] = none
    first_time (row ∷ rows) = some row.discovered_at

-- `[(alias, index, ...) for index, target in enumerate(targets)]`
unfoldable pub target_rows : Str → ℕ → List RouteTarget → List TargetRow
target_rows alias index [] = []
target_rows alias index (t ∷ ts) =
    record { alias = alias; priority = index; provider_id = t.provider_id; model_id = t.model }
    ∷ target_rows alias (index + 1) ts

abbrev pub all_targets : Dict Str (List RouteTarget) → List TargetRow
all_targets [] = []
all_targets ((alias, targets) ∷ routes) = target_rows alias 0 targets ++ all_targets routes

abbrev pub route_rows : ℕ → Dict Str (List RouteTarget) → List RouteRow
route_rows now [] = []
route_rows now ((alias, targets) ∷ routes) =
    record { alias = alias; enabled = true; updated_at = now } ∷ route_rows now routes

unfoldable pub replace_routes : ℕ → Dict Str (List RouteTarget) → Catalog → Option Catalog
replace_routes now routes c =
    if all (λ row. has_key row.provider_id c.providers) (all_targets routes)
    then some (record c { routes = route_rows now routes; targets = all_targets routes })
    else none

abbrev pub target_of : TargetRow → RouteTarget
target_of row = record { provider_id = row.provider_id; model = row.model_id }

abbrev pub by_priority : TargetRow → TargetRow → Bool
by_priority x y = ltb x.priority y.priority

-- The targets of an alias, `ORDER BY t.priority`.
unfoldable pub targets_of : Str → List TargetRow → List RouteTarget
targets_of alias rows =
    map target_of (sort_by by_priority (select (λ row. row.alias == alias) rows))

abbrev pub keep_route :
    RouteRow → List RouteTarget → Dict Str (List RouteTarget) → Dict Str (List RouteTarget)
keep_route route [] rest = rest
keep_route route (t ∷ ts) rest = if route.enabled then (route.alias, t ∷ ts) ∷ rest else rest

-- The join: an alias that is not enabled, or has no targets, is left out.
unfoldable pub join_routes : List TargetRow → List RouteRow → Dict Str (List RouteTarget)
join_routes targets [] = []
join_routes targets (route ∷ routes) =
    keep_route route (targets_of route.alias targets) (join_routes targets routes)

unfoldable pub load_routes : (Str → Str → Bool) → Catalog → Dict Str (List RouteTarget)
load_routes text_before c =
    join_routes c.targets (sort_by (λ x y. text_before x.alias y.alias) c.routes)

abbrev pub price_before : (Str → Str → Bool) → PriceRow → PriceRow → Bool
price_before text_before x y =
    text_before x.provider_id y.provider_id
    || (x.provider_id == y.provider_id && text_before x.model_id y.model_id)

unfoldable pub load_pricing : (Str → Str → Bool) → Catalog → List PriceRow
load_pricing text_before c = sort_by (price_before text_before) c.pricing

-- A price fits the column, NUMERIC(20, 10), if it is below 10 ^ 10; it is counted in the units of the
-- column's last digit.
unfoldable pub fits_column : ℕ → Bool
fits_column price = ltb price 100000000000000000000

abbrev pub fits : PriceRow → Bool
fits row = fits_column row.rates.input_per_1m && fits_column row.rates.output_per_1m

unfoldable pub replace_pricing : List PriceRow → Catalog → Option Catalog
replace_pricing prices c =
    if all (λ row. has_key row.provider_id c.providers) prices && all fits prices
    then some (record c { pricing = prices })
    else none

-- `ORDER BY p.is_default DESC, p.name`
abbrev pub provider_before : (Str → Str → Bool) → Str × ProviderRow → Str × ProviderRow → Bool
provider_before text_before (i, x) (j, y) =
    (x.is_default && not y.is_default)
    || ((x.is_default || not y.is_default) && text_before x.config.name y.config.name)

-- The settings and the encrypted credentials, under the provider's id.
unfoldable pub list_providers : (Str → Str → Bool) → Catalog → Dict Str ProviderRow
list_providers text_before c = sort_by (provider_before text_before) c.providers
