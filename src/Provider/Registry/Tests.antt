-- ===== src/Provider/Registry/Tests.antt =====
-- Routing in app/multi_provider.py and app/main.py at concrete inputs.
use prismux.Prelude.{
  ◌≡◌, refl, some, [], ◌∷◌, lookup, map, select, Str, text, text_eq, list_beq, pos, strip, is_space,
  split_once, starts_with, true, false, contains, ℕ_eq, ◌==◌, eq_false, ap, arith,
}
use prismux.Json.{Fields, null, int, str, obj, end, field, put, get, truthy}
use prismux.Provider.Runtime.Tests.{runtime}
use prismux.Provider.Registry.{
  Registry, ok, err, not_text, resolve, default, requested_or_default, select_targets, find_default,
  enabled_targets, inherit_health, provider_scoped_payload, payload, qualify,
}
use prismux.Provider.Registry.Qualified.{IsId, PlainAliases, Goes, provider_scoped_payload-Goes}
use prismux.Provider.Registry.Targets.{
  is_on, target_pair, Inherits, enabled_targets-select, lookup-inherit_health,
}

abbrev pub registry : Registry
registry = record {
  providers = (text "groq", runtime) ∷ [];
  routes =
      (
        text "fast",
        record { provider_id = text "groq"; model = text "llama" }
            ∷ record { provider_id = text "gone"; model = text "m" }
            ∷ [],
      )
      ∷ [];
}

by_alias :
    resolve registry (str (text " fast "))
    ≡ ok (
      text "fast",
      record { provider_id = text "groq"; model = text "llama" }
          ∷ record { provider_id = text "gone"; model = text "m" }
          ∷ [],
    )
unfolding resolve requested_or_default select_targets strip text lookup list_beq
by_alias = refl

-- A number is neither a model nor an error that the handlers expect.
number_model : resolve registry (int (pos 5)) ≡ err not_text
unfolding resolve requested_or_default truthy
number_model = refl

default_model :
    resolve registry null
    ≡ ok (text "llama", record { provider_id = text "groq"; model = text "llama" } ∷ [])
unfolding resolve requested_or_default select_targets default find_default truthy strip text lookup
    list_beq split_once starts_with
default_model = refl

abbrev body : Fields
body = field (text "model") (str (text "fast")) end

groq-IsId : IsId (text "groq")
unfolding text is_space
groq-IsId = record { filled = λ e. cc e; starts = refl; no_colon = refl }

colon_inside : (a b : Str) → contains (qualify a b) b':' ≡ true
unfolding text
colon_inside [] b = refl
colon_inside (c ∷ a) b = ground (arith, colon_inside a b)

fast_differs : (a b : Str) → (text "fast" == qualify a b) ≡ false
unfolding text
fast_differs a b =
    eq_false (text "fast") (qualify a b) (λ e. cc (ap (λ s. contains s b':') e, colon_inside a b))

registry-PlainAliases : PlainAliases registry
unfolding lookup
registry-PlainAliases a b = rw (fast_differs a b)

scoped :
    provider_scoped_payload registry (text "groq") (obj body)
    ≡ payload (put (text "model") (str (qualify (text "groq") (text "fast"))) body)
unfolding provider_scoped_payload lookup list_beq text strip split_once starts_with truthy get
scoped = refl

provider_scoped_payload-Goes_example :
    Goes registry registry-PlainAliases
      (text "groq")
      groq-IsId
      (put (text "model") (str (qualify (text "groq") (text "fast"))) body)
provider_scoped_payload-Goes_example =
    provider_scoped_payload-Goes registry registry-PlainAliases (text "groq") groq-IsId (obj body) _
      scoped

enabled_targets-select_example :
    enabled_targets registry (record { provider_id = text "gone"; model = text "m" } ∷ [])
    ≡ map target_pair (
        select
          (λ t. is_on (lookup t.provider_id registry.providers))
          (record { provider_id = text "gone"; model = text "m" } ∷ []))
enabled_targets-select_example =
    enabled_targets-select registry (record { provider_id = text "gone"; model = text "m" } ∷ [])

lookup-inherit_health_example :
    Inherits
      (lookup (text "groq") registry.providers)
      (lookup (text "groq") registry.providers)
      (lookup (text "groq") (inherit_health (some registry) registry).providers)
lookup-inherit_health_example = lookup-inherit_health registry registry (text "groq")
