-- ===== src/Provider/Registry.antt =====
-- `ProviderRegistry` of app/multi_provider.py, and the code of app/main.py that prepares a request
-- for it: which providers a requested model goes to.
-- A target's runtime is named by its id, under which `ProviderRegistry` holds it.
pub mod Qualified
pub mod Targets
pub mod Tests
use prismux.Prelude.{
  ℕ, Bool, true, false, not, ◌||◌, ◌&&◌, Option, none, some, List, [], ◌∷◌, ◌++◌, Dict, lookup,
  values, keys, map_values, Str, text, text_eq, ◌==◌, strip, split_once, has_text, lower, is_blank,
  any, if◌then◌else◌,
}
use prismux.Json.{Value, Fields, null, str, obj, get_null, put, truthy, or_else}
use prismux.Provider.Config.{ProviderConfig, RouteTarget}
use prismux.Provider.Runtime.{Runtime}

pub record Registry : Type 0 where
  pub providers : Dict Str Runtime
  pub routes : Dict Str (List RouteTarget)

-- The `ValueError`s of `resolve`, and the `AttributeError` of a model that is no text.
pub data ResolveError : Type 0 where
  no_default no_model bad_qualified not_text : ResolveError

pub data Result {ℓ} (A : Type ℓ) : Type ℓ where
  ok : A → Result A
  err : ResolveError → Result A

infixl 5 ◌>>=◌
abbrev pub ◌>>=◌ {ℓ κ} : {A : Type ℓ} {B : Type κ} → Result A → (A → Result B) → Result B
ok a >>= f = f a
err e >>= f = err e

abbrev pub or_fail {ℓ} : {A : Type ℓ} → ResolveError → Option A → Result A
or_fail e none = err e
or_fail e (some a) = ok a

unfoldable pub find_default : List Runtime → Option Runtime
find_default [] = none
find_default (r ∷ rs) = if r.config.is_default then some r else find_default rs

-- `registry.default`
unfoldable pub default : Registry → Result Runtime
default registry = or_fail no_default (find_default (values registry.providers))

abbrev pub default_target : Registry → Str → Result (Str × List RouteTarget)
default_target registry selector = do
  runtime ← default registry
  ok (selector, record { provider_id = runtime.config.id; model = selector } ∷ [])

abbrev pub qualified : Str → Str → Str → Result (Str × List RouteTarget)
qualified selector provider_id model =
    if is_blank provider_id || is_blank model
    then err bad_qualified
    else ok (selector, record { provider_id = provider_id; model = model } ∷ [])

abbrev pub unrouted : Registry → Str → Option (Str × Str) → Result (Str × List RouteTarget)
unrouted registry selector (some (provider_id, model)) = qualified selector provider_id model
unrouted registry selector none = default_target registry selector

abbrev pub routed : Registry → Str → Option (List RouteTarget) → Result (Str × List RouteTarget)
routed registry selector (some targets) = ok (selector, targets)
routed registry selector none = unrouted registry selector (split_once (text "::") selector)

unfoldable pub select_targets : Registry → Str → Result (Str × List RouteTarget)
select_targets registry selector =
    if is_blank selector
    then err no_model
    else routed registry selector (lookup selector registry.routes)

-- `requested_model or self.default.config.default_model`
unfoldable pub requested_or_default : Registry → Value → Result Str
requested_or_default registry (str s) =
    if is_blank s then (do runtime ← default registry; ok runtime.config.default_model) else ok s
requested_or_default registry v =
    if truthy v
    then err not_text
    else (do runtime ← default registry; ok runtime.config.default_model)

unfoldable pub resolve : Registry → Value → Result (Str × List RouteTarget)
resolve registry requested = do
  model ← requested_or_default registry requested
  select_targets registry (strip model)

abbrev pub keep_enabled : RouteTarget → Option Runtime → List (Str × Str) → List (Str × Str)
keep_enabled target none rest = rest
keep_enabled target (some runtime) rest =
    if runtime.config.enabled then (target.provider_id, target.model) ∷ rest else rest

unfoldable pub enabled_targets : Registry → List RouteTarget → List (Str × Str)
enabled_targets registry [] = []
enabled_targets registry (t ∷ ts) =
    let rest = enabled_targets registry ts in
    keep_enabled t (lookup t.provider_id registry.providers) rest

abbrev pub inherit : Option Runtime → Runtime → Runtime
inherit none r = r
inherit (some prior) r = record r {
  health = prior.health;
  last_health_error = prior.last_health_error;
  last_checked_at = prior.last_checked_at;
}

unfoldable pub inherit_all : Dict Str Runtime → Dict Str Runtime → Dict Str Runtime
inherit_all previous [] = []
inherit_all previous ((id, r) ∷ rest) =
    (id, inherit (lookup id previous) r) ∷ inherit_all previous rest

-- A reload keeps the observed health of the providers that were there before.
unfoldable pub inherit_health : Option Registry → Registry → Registry
inherit_health none registry = registry
inherit_health (some previous) registry = record registry {
  providers = inherit_all previous.providers registry.providers;
}

-- The answers of `provider_scoped_payload` in app/main.py.
pub data ScopedError : Type 0 where
  not_found disabled bad_body no_scoped_model foreign_model : ScopedError

pub data Scoped : Type 0 where
  payload : Fields → Scoped
  failed : ScopedError → Scoped

-- `f"{provider_id}::{model}"`
abbrev pub qualify : Str → Str → Str
qualify provider_id model = provider_id ++ (text "::" ++ model)

abbrev pub with_model : Fields → Str → Str → Scoped
with_model fs provider_id model = payload (put (text "model") (str (qualify provider_id model)) fs)

abbrev pub own_model : Fields → Str → Str → Option (Str × Str) → Scoped
own_model fs provider_id model none = with_model fs provider_id model
own_model fs provider_id model (some (requested_provider, requested_model)) =
    if not (requested_provider == provider_id) || is_blank requested_model
    then failed foreign_model
    else with_model fs provider_id requested_model

abbrev pub scoped_model : Fields → Str → Value → Scoped
scoped_model fs provider_id (str s) =
    if is_blank (strip s)
    then failed no_scoped_model
    else own_model fs provider_id (strip s) (split_once (text "::") (strip s))
scoped_model fs provider_id v = failed no_scoped_model

abbrev pub scoped_body : Str → Runtime → Value → Scoped
scoped_body provider_id runtime (obj fs) =
    scoped_model fs provider_id
      (or_else (get_null (text "model") fs) (str runtime.config.default_model))
scoped_body provider_id runtime v = failed bad_body

abbrev pub scoped_by : Str → Option Runtime → Value → Scoped
scoped_by provider_id none body = failed not_found
scoped_by provider_id (some runtime) body =
    if runtime.config.enabled then scoped_body provider_id runtime body else failed disabled

unfoldable pub provider_scoped_payload : Registry → Str → Value → Scoped
provider_scoped_payload registry provider_id body =
    scoped_by provider_id (lookup provider_id registry.providers) body
