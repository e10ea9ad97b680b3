-- ===== src/Catalog/Handlers.antt =====
-- The handlers of app/main.py that change the catalog: providers, routes and prices.
-- The check of a destination by the outbound policy is `allowed`, the cipher's `encrypt` is a
-- parameter; the health check that a change schedules in the background is left out. `storable` are
-- the tables that the database takes and commits: where it raises, the transaction is given up and
-- the exception leaves the handler. The reads of a reload do not fail here.
use prismux.Prelude.{
  ℕ, Bool, true, false, not, ◌&&◌, ◌||◌, Option, none, some, List, [], ◌∷◌, ◌++◌, any, is_empty,
  Dict, lookup, insert, has_key, Str, text, text_eq, pair_eq, ◌==◌, contains, is_blank, strip,
  lower, has_text, if◌then◌else◌,
}
use prismux.Provider.Config.{ProviderConfig, RouteTarget}
use prismux.Provider.Runtime.{Runtime}
use prismux.Provider.Registry
use prismux.Catalog.{
  Catalog, PriceRow, upsert_provider, delete_provider, provider_route_references, replace_routes,
  replace_pricing,
}
use prismux.Catalog.Reload.{App, Outcome, done, raised, Credentials, reload_registry}

pub record ProviderUpdate : Type 0 where
  pub config : ProviderConfig
  pub api_key : Option Str
  pub clear_api_key : Bool
  pub secret_headers : Option (Dict Str Str)
  pub clear_secret_headers : Bool

-- The status of the answer, or an exception that leaves the handler.
pub data Answer : Type 0 where
  answered : ℕ → Answer
  raises : Answer

abbrev pub reserved_headers : List Str
reserved_headers =
    text "host" ∷ text "content-length" ∷ text "authorization" ∷ text "x-api-key" ∷ []

abbrev pub add_header : Str → Str → Option (Dict Str Str) → Option (Dict Str Str)
add_header name value none = none
add_header name value (some cleaned) =
    if is_blank name || contains reserved_headers (lower name)
    then none
    else some (insert name value cleaned)

-- The loop, from the names that are done; `none` is the `ValueError`.
unfoldable pub clean_headers : Dict Str Str → Option (Dict Str Str) → Option (Dict Str Str)
clean_headers [] cleaned = cleaned
clean_headers ((name, value) ∷ headers) cleaned =
    clean_headers headers (add_header (strip name) value cleaned)

abbrev pub headers_or_empty : Option (Dict Str Str) → Dict Str Str
headers_or_empty none = []
headers_or_empty (some headers) = headers

unfoldable pub validate_secret_headers : Option (Dict Str Str) → Option (Dict Str Str)
validate_secret_headers headers = clean_headers (headers_or_empty headers) (some [])

-- `(body.api_key or "").strip()`
abbrev pub key_text : Option Str → Str
key_text none = []
key_text (some key) = strip key

abbrev pub has_secrets : Credentials → Bool
has_secrets c = not (is_blank c.api_key) || not (is_empty c.secret_headers)

-- The key and whether it changes.
abbrev pub new_key : ProviderUpdate → Str → Str × Bool
new_key body current =
    if body.clear_api_key
    then ([], true)
    else if is_blank (key_text body.api_key)
    then (current, false)
    else (key_text body.api_key, true)

abbrev pub given_headers : Option (Dict Str Str) → Dict Str Str → Option (Dict Str Str × Bool)
given_headers none current = some (current, false)
given_headers (some headers) current = changed (validate_secret_headers (some headers))
  where
    changed : Option (Dict Str Str) → Option (Dict Str Str × Bool)
    changed none = none
    changed (some cleaned) = some (cleaned, true)

abbrev pub new_headers : ProviderUpdate → Dict Str Str → Option (Dict Str Str × Bool)
new_headers body current =
    if body.clear_secret_headers then some ([], true) else given_headers body.secret_headers current

abbrev pub add_target : RouteTarget → Option (List RouteTarget) → Option (List RouteTarget)
add_target t none = none
add_target t (some rest) =
    some (record { provider_id = t.provider_id; model = strip t.model } ∷ rest)

-- The targets of one route, in the loop of `update_routes_api`; `none` is an answer with status 422.
unfoldable pub clean_targets : (Str → Bool) → List RouteTarget → Option (List RouteTarget)
clean_targets known [] = some []
clean_targets known (t ∷ ts) =
    let rest = add_target t (clean_targets known ts) in
    if not (known t.provider_id) then none else if is_blank (strip t.model) then none else rest

abbrev pub add_route :
    Str
    → Option (List RouteTarget)
    → Dict Str (List RouteTarget)
    → Option (Dict Str (List RouteTarget))
add_route alias none normalized = none
add_route alias (some []) normalized = none
add_route alias (some (t ∷ ts)) normalized =
    if is_blank alias || has_text (text "::") alias
    then none
    else if has_key alias normalized
    then none
    else some (normalized ++ ((alias, t ∷ ts) ∷ []))

abbrev pub then_routes {ℓ κ} : {A : Type ℓ} {B : Type κ} → Option A → (A → Option B) → Option B
then_routes none k = none
then_routes (some a) k = k a

-- `none` is one of the answers with status 422.
unfoldable pub normalize_routes :
    (Str → Bool)
    → Dict Str (List RouteTarget)
    → Dict Str (List RouteTarget)
    → Option (Dict Str (List RouteTarget))
normalize_routes known [] normalized = some normalized
normalize_routes known ((raw_alias, targets) ∷ routes) normalized =
    then_routes (add_route (strip raw_alias) (clean_targets known targets) normalized)
      (λ next. normalize_routes known routes next)

abbrev pub strip_model : PriceRow → PriceRow
strip_model row = record row { model_id = strip row.model_id }

abbrev pub price_key : PriceRow → Str × Str
price_key row = (row.provider_id, strip row.model_id)

abbrev pub price_keys : List PriceRow → List (Str × Str)
price_keys [] = []
price_keys (row ∷ rows) = price_key row ∷ price_keys rows

-- `len(keys) != len(set(keys))`
abbrev pub repeats : List (Str × Str) → Bool
repeats [] = false
repeats (k ∷ ks) = contains ks k || repeats ks

abbrev pub strip_models : List PriceRow → List PriceRow
strip_models [] = []
strip_models (row ∷ rows) = strip_model row ∷ strip_models rows

module _ (ticks : ℕ) (text_before : Str → Str → Bool) (decrypt : Str → Option Credentials)
    (available : Bool) (encrypt : Credentials → Str) (allowed : ProviderConfig → Bool)
    (storable : Catalog → Bool) where
  abbrev pub reloaded : Outcome → App × Answer
  reloaded (done app) = (app, answered 200)
  reloaded (raised app) = (app, raises)

  abbrev pub commit : ℕ → App → Catalog → App × Answer
  commit now app catalog =
      if storable catalog
      then reloaded
          (reload_registry ticks text_before decrypt now (record app { catalog = catalog }))
      else (app, raises)

  abbrev pub commit_or_raise : ℕ → App → Option Catalog → App × Answer
  commit_or_raise now app none = (app, raises)
  commit_or_raise now app (some catalog) = commit now app catalog

  abbrev pub first_is_default : Registry.Registry → ProviderConfig → ProviderConfig
  first_is_default registry config =
      if is_empty registry.providers then record config { is_default = true } else config

  abbrev pub create_with : ℕ → App → ProviderUpdate → Option (Dict Str Str) → App × Answer
  create_with now app body none = (app, answered 422)
  create_with now app body (some secret_headers) =
      let credentials : Credentials = record {
        api_key = key_text body.api_key;
        secret_headers = secret_headers;
      } in
      let config = first_is_default app.registry body.config in
      if has_secrets credentials
      then (if available
          then commit now app (upsert_provider now config (some (encrypt credentials)) app.catalog)
          else (app, answered 422))
      else commit now app (upsert_provider now config none app.catalog)

  unfoldable pub create_provider_api : ℕ → ProviderUpdate → App → App × Answer
  create_provider_api now body app =
      if has_key body.config.id app.catalog.providers
      then (app, answered 409)
      else if not (allowed body.config)
      then (app, answered 422)
      else create_with now app body (validate_secret_headers body.secret_headers)

  abbrev pub update_with :
      ℕ → App → ProviderUpdate → Str × Bool → Option (Dict Str Str × Bool) → App × Answer
  update_with now app body key none = (app, answered 422)
  update_with now app body (key, key_changed) (some (headers, headers_changed)) =
      let credentials : Credentials = record { api_key = key; secret_headers = headers } in
      if not (key_changed || headers_changed)
      then commit now app (upsert_provider now body.config none app.catalog)
      else if not (has_secrets credentials)
      then commit now app (upsert_provider now body.config (some []) app.catalog)
      else if available
      then commit now app (upsert_provider now body.config (some (encrypt credentials)) app.catalog)
      else (app, answered 422)

  abbrev pub update_found : ℕ → Str → ProviderUpdate → App → Option Runtime → App × Answer
  update_found now provider_id body app none = (app, answered 404)
  update_found now provider_id body app (some current) =
      if not (body.config.id == provider_id)
      then (app, answered 422)
      else if current.config.is_default && not body.config.is_default
      then (app, answered 409)
      else if not (allowed body.config)
      then (app, answered 422)
      else update_with now app body (new_key body current.api_key)
          (new_headers body current.secret_headers)

  unfoldable pub update_provider_api : ℕ → Str → ProviderUpdate → App → App × Answer
  update_provider_api now provider_id body app =
      update_found now provider_id body app (lookup provider_id app.registry.providers)

  abbrev pub delete_found : ℕ → Str → App → Option Runtime → App × Answer
  delete_found now provider_id app none = (app, answered 404)
  delete_found now provider_id app (some runtime) =
      if runtime.config.is_default
      then (app, answered 409)
      else if not (is_empty (provider_route_references text_before provider_id app.catalog))
      then (app, answered 409)
      else commit_or_raise now app (delete_provider provider_id app.catalog)

  unfoldable pub delete_provider_api : ℕ → Str → App → App × Answer
  delete_provider_api now provider_id app =
      delete_found now provider_id app (lookup provider_id app.registry.providers)

  abbrev pub known : App → Str → Bool
  known app id = has_key id app.registry.providers

  abbrev pub routes_with : ℕ → App → Option (Dict Str (List RouteTarget)) → App × Answer
  routes_with now app none = (app, answered 422)
  routes_with now app (some routes) =
      commit_or_raise now app (replace_routes now routes app.catalog)

  unfoldable pub update_routes_api : ℕ → Dict Str (List RouteTarget) → App → App × Answer
  update_routes_api now routes app = routes_with now app (normalize_routes (known app) routes [])

  unfoldable pub update_pricing_api : ℕ → List PriceRow → App → App × Answer
  update_pricing_api now rows app =
      if any (λ row. is_blank (strip row.model_id)) rows
      then (app, answered 422)
      else if repeats (price_keys rows)
      then (app, answered 422)
      else if any (λ row. not (known app row.provider_id)) rows
      then (app, answered 422)
      else commit_or_raise now app (replace_pricing (strip_models rows) app.catalog)
