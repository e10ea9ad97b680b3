-- ===== src/Catalog/Tests.antt =====
-- The catalog of app/db.py and its handlers at concrete inputs.
use prismux.Prelude.{
  ◌≡◌, refl, Bool, true, false, Option, none, some, List, [], ◌∷◌, Dict, lookup, has_key, Str, text,
  text_eq, list_beq, ◌==◌, strip, split_once, starts_with, has_text,
}
use prismux.Provider.Config.{RouteTarget}
use prismux.Provider.Capacity.Tests.{config}
use prismux.Provider.Registry.Tests.{registry}
use prismux.Limiter
use prismux.Catalog.{
  Catalog, PriceRow, fits_column, replace_pricing, replace_routes, load_routes, target_rows,
}
use prismux.Catalog.Reload.{App, Credentials, no_credentials}
use prismux.Catalog.Handlers.{clean_targets, normalize_routes}
use prismux.Catalog.Kept.{Call, set_routes}
use prismux.Catalog.Routes.{load_routes-replace_routes}

abbrev before : Str → Str → Bool
before s t = false

abbrev decrypt : Str → Option Credentials
decrypt s = some no_credentials

abbrev encrypt : Credentials → Str
encrypt c = text "x"

abbrev catalog : Catalog
catalog = record {
  providers =
      (
        text "groq",
        record {
          config = config;
          enabled = true;
          is_default = true;
          created_at = 1;
          updated_at = 1;
        },
      )
      ∷ [];
  credentials = [];
  models = [];
  routes = [];
  targets = [];
  pricing = [];
}

abbrev app : App
app = record {
  catalog = catalog;
  registry = registry;
  bucket = Limiter.new 1 1 0;
  model_routes = [];
  provider_pricing = [];
  pricing = [];
  legacy_api_keys = [];
}

abbrev target : RouteTarget
target = record { provider_id = text "groq"; model = text " llama " }

abbrev call : Call
call = set_routes 7 ((text "fast", target ∷ []) ∷ [])

-- A price of 10 ^ 10.
abbrev dear : PriceRow
dear = record {
  provider_id = text "groq";
  model_id = text "llama";
  rates = record { input_per_1m = 100000000000000000000; output_per_1m = 0 };
}

too_dear : replace_pricing (dear ∷ []) catalog ≡ none
unfolding replace_pricing fits_column has_key text list_beq
too_dear = refl

-- The blanks round the model are stripped, and an unknown provider is refused.
stripped_routes :
    normalize_routes (λ id. id == text "groq") ((text " fast ", target ∷ []) ∷ []) []
    ≡ some ((text "fast", record { provider_id = text "groq"; model = text "llama" } ∷ []) ∷ [])
unfolding normalize_routes clean_targets has_text split_once starts_with text list_beq strip has_key
stripped_routes = refl

unknown_provider : normalize_routes (λ id. false) ((text "fast", target ∷ []) ∷ []) [] ≡ none
unfolding normalize_routes clean_targets
unknown_provider = refl

abbrev routes : Dict Str (List RouteTarget)
routes = (text "fast", record { provider_id = text "groq"; model = text "llama" } ∷ []) ∷ []

abbrev routed : Catalog
routed = record catalog {
  routes = record { alias = text "fast"; enabled = true; updated_at = 7 } ∷ [];
  targets =
      record {
        alias = text "fast";
        priority = 0;
        provider_id = text "groq";
        model_id = text "llama";
      }
      ∷ [];
}

stored : replace_routes 7 routes catalog ≡ some routed
unfolding replace_routes target_rows has_key text list_beq
stored = refl

load_routes-replace_routes_example :
    lookup (text "fast") (load_routes before routed) ≡ lookup (text "fast") routes
unfolding lookup
load_routes-replace_routes_example =
    load_routes-replace_routes 7 before routes catalog routed (text "fast") (refl, tt) (tt, tt)
      stored
