-- ===== src/Provider/Registry/Targets.antt =====
-- The targets that are left of a route, and the health that outlives a reload, in
-- app/multi_provider.py.
use prismux.Prelude.{
  ◌≡◌, refl, inl, inr, Bool, false, Option, none, some, List, [], ◌∷◌, Dict, lookup, map, select,
  Str, text_eq, ◌==◌, eq_iff, Bool-cases, Option-cases, arith,
}
use prismux.Provider.Config.{RouteTarget}
use prismux.Provider.Runtime.{Runtime}
use prismux.Provider.Registry.{Registry, enabled_targets, inherit, inherit_all, inherit_health}

-- Whether a target's provider is known and enabled.
abbrev pub is_on : Option Runtime → Bool
is_on none = false
is_on (some r) = r.config.enabled

abbrev pub target_pair : RouteTarget → Str × Str
target_pair t = (t.provider_id, t.model)

-- Of a route's targets exactly those stay whose provider is known and enabled, in their order.
pub enabled_targets-select :
    (registry : Registry) (ts : List RouteTarget)
    → enabled_targets registry ts
      ≡ map target_pair (select (λ t. is_on (lookup t.provider_id registry.providers)) ts)
unfolding enabled_targets
enabled_targets-select registry [] = refl
enabled_targets-select registry (t ∷ ts) = ground (
  arith,
  enabled_targets-select registry ts,
  Option-cases (lookup t.provider_id registry.providers),
)

abbrev pub inherited : Option Runtime → Option Runtime → Option Runtime
inherited prior none = none
inherited prior (some r) = some (inherit prior r)

lookup-inherit_all :
    (previous d : Dict Str Runtime) (id : Str)
    → lookup id (inherit_all previous d) ≡ inherited (lookup id previous) (lookup id d)
unfolding inherit_all lookup
lookup-inherit_all previous [] id = refl
lookup-inherit_all previous ((j, r) ∷ d) id = elim (Bool-cases (j == id)) [
  | inl same ↦ rw (same, (eq_iff j id).0 same)
  | inr other ↦ rw other (lookup-inherit_all previous d id)
]

pub lookup-inherited :
    (previous registry : Registry) (id : Str)
    → lookup id (inherit_health (some previous) registry).providers
      ≡ inherited (lookup id previous.providers) (lookup id registry.providers)
unfolding inherit_health
lookup-inherited previous registry id = lookup-inherit_all previous.providers registry.providers id

-- What was observed is from `prior`, all else from `fresh`.
pub record HasHealthOf (prior fresh after : Runtime) : Type 0 where
  pub health : after.health ≡ prior.health
  pub error : after.last_health_error ≡ prior.last_health_error
  pub checked : after.last_checked_at ≡ prior.last_checked_at
  pub config : after.config ≡ fresh.config
  pub capacity : after.capacity ≡ fresh.capacity
  pub api_key : after.api_key ≡ fresh.api_key
  pub headers : after.secret_headers ≡ fresh.secret_headers
  pub configured : after.api_key_configured ≡ fresh.api_key_configured

-- What stands under an id after a reload, by what stood there before it and what the reload made.
abbrev pub Inherits : Option Runtime → Option Runtime → Option Runtime → Type 0
Inherits prior none after = after ≡ none
Inherits none (some fresh) after = after ≡ some fresh
Inherits (some prior) (some fresh) after =
    (r : Runtime) × (after ≡ some r) × HasHealthOf prior fresh r

inherited-Inherits : (prior fresh : Option Runtime) → Inherits prior fresh (inherited prior fresh)
inherited-Inherits none none = refl
inherited-Inherits (some p) none = refl
inherited-Inherits none (some f) = refl
inherited-Inherits (some p) (some f) = (
  _,
  refl,
  record {
    health = refl;
    error = refl;
    checked = refl;
    config = refl;
    capacity = refl;
    api_key = refl;
    headers = refl;
    configured = refl;
  },
)

-- After a reload, a provider that was there before has its new settings, limits and credentials and
-- its old health, error and time of the last check; one that was not there is as the reload made
-- it; and no provider is added or dropped.
pub lookup-inherit_health :
    (previous registry : Registry) (id : Str)
    → Inherits
        (lookup id previous.providers)
        (lookup id registry.providers)
        (lookup id (inherit_health (some previous) registry).providers)
lookup-inherit_health previous registry id =
    rw (lookup-inherited previous registry id)
      (inherited-Inherits (lookup id previous.providers) (lookup id registry.providers))
