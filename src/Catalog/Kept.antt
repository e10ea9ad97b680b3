-- ===== src/Catalog/Kept.antt =====
-- The handlers of app/main.py keep the catalog valid and the registry in step with it.
use prismux.Prelude.{ℕ, ◌≡◌, ◌≢◌, Bool, true, Option, none, List, all, Dict, Str, text_eq}
use prismux.Provider.Config.{ProviderConfig, RouteTarget}
use prismux.Provider.Runtime.{Runtime}
use prismux.Catalog.{Catalog, PriceRow, fits}
use prismux.Catalog.Reload.{App, Credentials}
use prismux.Catalog.Reloaded.{IsGood, Keeps}
use prismux.Catalog.Handlers
use prismux.Catalog.Handlers.{
  ProviderUpdate, Answer, raises, normalize_routes, known, create_provider_api, update_provider_api,
  delete_provider_api, update_routes_api, update_pricing_api,
}

-- A call of one of the handlers, with the time of its write.
pub data Call : Type 0 where
  create : ℕ → ProviderUpdate → Call
  update : ℕ → Str → ProviderUpdate → Call
  delete : ℕ → Str → Call
  set_routes : ℕ → Dict Str (List RouteTarget) → Call
  set_prices : ℕ → List PriceRow → Call

module _ (ticks : ℕ) (text_before : Str → Str → Bool) (decrypt : Str → Option Credentials)
    (available : Bool) (encrypt : Credentials → Str) (allowed : ProviderConfig → Bool)
    (storable : Catalog → Bool) where
  unfoldable pub handle : Call → App → App × Answer
  handle (create now body) app =
      create_provider_api ticks text_before decrypt available encrypt allowed storable now body app
  handle (update now id body) app =
      update_provider_api ticks text_before decrypt available encrypt allowed storable now id body
        app
  handle (delete now id) app =
      delete_provider_api ticks text_before decrypt available encrypt allowed storable now id app
  handle (set_routes now routes) app =
      update_routes_api ticks text_before decrypt available encrypt allowed storable now routes app
  handle (set_prices now rows) app =
      update_pricing_api ticks text_before decrypt available encrypt allowed storable now rows app

  module _ (readable : available ≡ true → (c : Credentials) → decrypt (encrypt c) ≢ none) where
    abbrev Good : App → Type 0
    Good app = IsGood ticks text_before decrypt app

    -- The prices fit their columns; the other calls have no condition.
    abbrev pub Fits : Call → Type 0
    Fits (set_prices now rows) = all fits rows ≡ true
    Fits call = Unit

    abbrev pub KeptIf : Type 0 → App → App × Answer → Type 0
    KeptIf P app r =
        Keeps ticks text_before decrypt available encrypt allowed storable readable P app r

    abbrev Kept : App → App × Answer → Type 0
    Kept app r = KeptIf (Unit {0}) app r
