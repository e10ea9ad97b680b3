-- ===== src/Catalog/Reloaded.antt =====
-- `reload_registry` of app/main.py on a valid catalog, and the writes that lead to it.
use prismux.Prelude.{
  ℕ, ◌+◌, ◌≡◌, ◌≢◌, refl, sym, ap, ◌∙◌, ◌⊎◌, inl, inr, Bool, true, Bool-cases, Option, none, some,
  List, [], ◌∷◌, All, Dict, lookup, values, lookup-insert, lookup-erase, lookup-sort_by, IsDistinct,
  All-sort_by, Str, text_eq, ◌==◌, eq_iff, eq_refl, is_blank, arith, any,
}
use prismux.Provider.Config.{ProviderConfig, RouteTarget}
use prismux.Provider.Runtime.{Runtime}
use prismux.Provider.Registry.{Registry, Result, ok, err, find_default, default, inherit_health}
use prismux.Provider.Registry.Targets.{inherited, lookup-inherited}
use prismux.Catalog.{
  Catalog, ProviderRow, PriceRow, refers_to, erase_provider, store_credentials, upsert_provider,
  delete_provider, list_providers, load_routes, replace_routes, replace_pricing, provider_before,
}
use prismux.Catalog.Valid.{IsValid, RowIsSound, flag_of, defaults, upsert-IsValid}
use prismux.Catalog.InStep.{InStep, config_in, config_at}
use prismux.Catalog.Reload.{
  App, done, Credentials, credentials_of, runtime_of, build, with_default, with_runtimes,
  reload_registry,
}
use prismux.Catalog.Handlers.{Answer, answered, raises, commit, commit_or_raise}

config_in-inherited : (o p : Option Runtime) → config_in (inherited o p) ≡ config_in p
config_in-inherited none none = refl
config_in-inherited none (some r) = refl
config_in-inherited (some q) none = refl
config_in-inherited (some q) (some r) = refl

-- A default provider that a look-up finds is found by the search for one.
find_default-some :
    (d : Dict Str Runtime) (id : Str) (r : Runtime)
    → lookup id d ≡ some r
    → r.config.is_default ≡ true
    → (s : Runtime) × (find_default (values d) ≡ some s)
unfolding find_default lookup
find_default-some [] id r e f = absurd (let n : ◌≡◌ {A = Option Runtime} none (some r) = e in cc n)
find_default-some ((j, s) ∷ d) id r e f = elim (Bool-cases s.config.is_default) [
  | inl here ↦ (s, rw here refl)
  | inr later ↦ rw later (elim (Bool-cases (j == id)) [
    | inl same ↦
        let k : ◌≡◌ {A = Option Runtime} (some s) (some r) = rw same at e in
        absurd (let l : s ≡ r = cc k in cc (ap (λ (x : Runtime). x.config.is_default) l, later, f))
    | inr other ↦ find_default-some d id r (rw other at e) f
  ])
]

default_row :
    (d : Dict Str ProviderRow)
    → IsDistinct d
    → defaults d ≡ 1
    → (id : Str) × (row : ProviderRow) × (lookup id d ≡ some row) × (row.is_default ≡ true)
unfolding lookup
default_row [] h e = absurd (omega (arith, e))
default_row ((j, w) ∷ d) h e = elim (Bool-cases w.is_default) [
  | inl here ↦ (j, w, rw (eq_refl j) refl, here)
  | inr later ↦
      let (id, row, f, g) =
        default_row d h.1 (let k : 0 + defaults d ≡ 1 = rw later at e in omega (arith, k)) in
      (
        id,
        row,
        elim (Bool-cases (j == id)) [
          | inl same ↦ absurd (
              let k : lookup id d ≡ none = rw ((eq_iff j id).0 same) at h.0 in
              let l : ◌≡◌ {A = Option ProviderRow} none (some row) = sym k ∙ f in cc l)
          | inr other ↦ rw other f
        ],
        g,
      )
]

pub sound_at :
    (d : Dict Str ProviderRow) (id : Str) (row : ProviderRow)
    → All RowIsSound d
    → lookup id d ≡ some row
    → row.config.is_default ≡ row.is_default
unfolding lookup
sound_at [] id row h e = absurd (let n : ◌≡◌ {A = Option ProviderRow} none (some row) = e in cc n)
sound_at ((j, w) ∷ d) id row h e = elim (Bool-cases (j == id)) [
  | inl same ↦
      let k : ◌≡◌ {A = Option ProviderRow} (some w) (some row) = rw same at e in
      let l : w ≡ row = cc k in rw (sym l) h.0.1
  | inr other ↦ sound_at d id row h.1 (rw other at e)
]

default_found :
    (registry : Registry) (s : Runtime)
    → find_default (values registry.providers) ≡ some s
    → default registry ≡ ok s
unfolding default
default_found registry s k = rw k refl

is_there : {A : Type 0} (o : Option A) → o ≢ none → (a : A) × (o ≡ some a)
is_there none h = absurd (h refl)
is_there (some a) h = (a, refl)

module _ (ticks : ℕ) (text_before : Str → Str → Bool) (decrypt : Str → Option Credentials) where
  -- Every stored credential can be read.
  abbrev pub Decrypts : Dict Str Str → Type 0
  Decrypts stored = (id : Str) → credentials_of ticks text_before decrypt (lookup id stored) ≢ none

  -- The catalog is valid and readable, and the registry in step with it.
  pub record IsGood (app : App) : Type 0 where
    pub valid : IsValid app.catalog
    pub in_step : InStep app.registry app.catalog
    pub decrypts : Decrypts app.catalog.credentials

  build-some :
      (now : ℕ) (stored legacy : Dict Str Str) (rows : Dict Str ProviderRow)
      → All RowIsSound rows
      → Decrypts stored
      → (ps : Dict Str Runtime) × (build ticks text_before decrypt now stored legacy rows ≡ some ps)
        × ((id : Str) → config_in (lookup id ps) ≡ config_at (lookup id rows))
  unfolding build lookup
  build-some now stored legacy [] s d = ([], refl, λ id. refl)
  build-some now stored legacy ((j, row) ∷ rows) s d =
      let (ps, e, same) = build-some now stored legacy rows s.1 d in
      let (credentials, f) =
        is_there (credentials_of ticks text_before decrypt (lookup j stored)) (d j) in
      (
        (row.config.id, runtime_of now row.config (lookup j legacy) credentials) ∷ ps,
        rw (e, f) refl,
        λ id. rw s.0.0 (elim (Bool-cases (j == id)) [
          | inl here ↦ rw here refl
          | inr other ↦ rw other (same id)
        ]),
      )

  IsGood-same :
      (app next : App)
      → next.catalog ≡ app.catalog
      → next.registry ≡ app.registry
      → IsGood app
      → IsGood next
  IsGood-same app next m n g = record {
    valid = rw m g.valid;
    in_step = λ id. rw (m, n) (g.in_step id);
    decrypts = λ id. rw m (g.decrypts id);
  }

  with_default-done :
      (now : ℕ) (app : App) (res : Result Runtime) (s : Runtime)
      → res ≡ ok s
      → (next : App) × (with_default ticks text_before decrypt now app res ≡ done next)
        × (next.catalog ≡ app.catalog)
        × (next.registry ≡ app.registry)
  with_default-done now app (ok r) s e = (_, refl, refl, refl)
  with_default-done now app (err x) s e = absurd (cc e)

  reload_with :
      (now : ℕ) (app : App) (ps : Dict Str Runtime)
      → ((id : Str) → config_in (lookup id ps) ≡ config_at (lookup id app.catalog.providers))
      → IsValid app.catalog
      → Decrypts app.catalog.credentials
      → (next : App) × (with_runtimes ticks text_before decrypt now app (some ps) ≡ done next)
        × IsGood next
        × (next.catalog ≡ app.catalog)
  reload_with now app ps same v d =
      let fresh : Registry = record {
        providers = ps;
        routes = load_routes text_before app.catalog;
      } in
      let registry = inherit_health (some app.registry) fresh in
      let step : InStep registry app.catalog = λ id.
        ap config_in (lookup-inherited app.registry fresh id)
        ∙ config_in-inherited (lookup id app.registry.providers) (lookup id ps)
        ∙ same id in
      let (id, row, e, f) = default_row app.catalog.providers v.distinct v.one_default in
      let (r, g, h) = config_there (lookup id registry.providers) row (step id ∙ ap config_at e) in
      let (s, k) = find_default-some registry.providers id r g (
        ap (λ (c : ProviderConfig). c.is_default) h
        ∙ sound_at app.catalog.providers id row v.sound e
        ∙ f) in
      let (next, l, m, n) =
        with_default-done now (record app { registry = registry }) (default registry) s
          (default_found registry s k) in
      (
        next,
        l,
        IsGood-same (record app { registry = registry }) next m n
            (record { valid = v; in_step = step; decrypts = d }),
        m,
      )
    where
      config_there :
          (o : Option Runtime) (row : ProviderRow)
          → config_in o ≡ some row.config
          → (r : Runtime) × (o ≡ some r) × (r.config ≡ row.config)
      config_there none row e =
          absurd (let n : ◌≡◌ {A = Option ProviderConfig} none (some row.config) = e in cc n)
      config_there (some r) row e = (r, refl, cc e)

  -- A reload of a good state returns, and the registry is in step with the catalog.
  reload_registry-IsGood :
      (now : ℕ) (app : App)
      → IsValid app.catalog
      → Decrypts app.catalog.credentials
      → (next : App) × (reload_registry ticks text_before decrypt now app ≡ done next)
        × IsGood next
        × (next.catalog ≡ app.catalog)
  unfolding reload_registry list_providers
  reload_registry-IsGood now app v d =
      let rows = list_providers text_before app.catalog in
      let (ps, e, same) =
        build-some now app.catalog.credentials app.legacy_api_keys rows
          (All-sort_by RowIsSound (provider_before text_before) app.catalog.providers v.sound) d in
      let (next, f, g, c) =
        reload_with now app ps
          (λ id.
            same id
            ∙ ap config_at
                (lookup-sort_by (provider_before text_before) app.catalog.providers id v.distinct))
          v d in
      (next, rw e f, g, c)

  module _ (available : Bool) (encrypt : Credentials → Str) (allowed : ProviderConfig → Bool)
      (storable : Catalog → Bool)
      (readable : available ≡ true → (c : Credentials) → decrypt (encrypt c) ≢ none) where
    -- The state after a handler is good. One that raises leaves it as it was, and none raises where
    -- `P` is met and the database takes all tables.
    abbrev pub Keeps : Type 0 → App → App × Answer → Type 0
    Keeps P before (app, answer) =
        IsGood app
        × (answer ≡ raises → app ≡ before)
        × (P → ((c : Catalog) → storable c ≡ true) → answer ≢ raises)

    pub answered-Keeps :
        (P : Type 0) (before app : App) (code : ℕ)
        → IsGood app
        → Keeps P before (app, answered code)
    answered-Keeps P before app code g = (g, λ e. absurd (cc e), λ p all e. cc e)

    pub commit-Keeps :
        (P : Type 0) (now : ℕ) (app : App) (c : Catalog)
        → IsGood app
        → IsValid c
        → Decrypts c.credentials
        → Keeps P app
            (commit ticks text_before decrypt available encrypt allowed storable now app c)
    commit-Keeps P now app c g v d = elim (Bool-cases (storable c)) [
      | inl taken ↦
          let (next, e, h, same) = reload_registry-IsGood now (record app { catalog = c }) v d in
          rw (taken, e) (answered-Keeps P app next 200 h)
      | inr lost ↦ rw lost (g, λ e. refl, λ p all e. cc (all c, lost))
    ]

    pub commit_or_raise-Keeps :
        (P : Type 0) (now : ℕ) (app : App) (o : Option Catalog)
        → IsGood app
        → (P → o ≢ none)
        → ((c : Catalog) → o ≡ some c → IsValid c × Decrypts c.credentials)
        → Keeps P app
            (commit_or_raise ticks text_before decrypt available encrypt allowed storable now app o)
    commit_or_raise-Keeps P now app none g n h = (g, λ e. refl, λ p all e. n p refl)
    commit_or_raise-Keeps P now app (some c) g n h =
        let k = h c refl in commit-Keeps P now app c g k.0 k.1

    store-Decrypts :
        (id : Str) (o : Option Str) (stored : Dict Str Str)
        → ((s : Str) → o ≡ some s → credentials_of ticks text_before decrypt (some s) ≢ none)
        → Decrypts stored
        → Decrypts (store_credentials id o stored)
    store-Decrypts id none stored h d = d
    store-Decrypts id (some s) stored h d = λ j. elim (Bool-cases (is_blank s)) [
      | inl blank ↦
          rw (blank, lookup-erase j id stored)
            (elim (Bool-cases (id == j)) [
              | inl same ↦ rw same (λ e. cc e)
              | inr other ↦ rw other (d j)
            ])
      | inr given ↦
          rw (given, lookup-insert j id s stored)
            (elim (Bool-cases (id == j)) [
              | inl same ↦ rw same (h s refl)
              | inr other ↦ rw other (d j)
            ])
    ]

    pub encrypted-readable :
        (c : Credentials)
        → available ≡ true
        → (s : Str) → ◌≡◌ {A = Option Str} (some (encrypt c)) (some s)
        → credentials_of ticks text_before decrypt (some s) ≢ none
    encrypted-readable c a s e =
        let k : encrypt c ≡ s = cc e in
        rw (sym k) (elim (Bool-cases (is_blank (encrypt c))) [
          | inl blank ↦ rw blank (λ f. cc f)
          | inr given ↦ rw given (readable a c)
        ])

    pub upsert-Keeps :
        (now : ℕ) (app : App) (config : ProviderConfig) (o : Option Str)
        → IsGood app
        → (config.is_default ≡ true) ⊎ (flag_of (lookup config.id app.catalog.providers) ≡ 0)
        → ((s : Str) → o ≡ some s → credentials_of ticks text_before decrypt (some s) ≢ none)
        → Keeps (Unit {0}) app (
            commit ticks text_before decrypt available encrypt allowed storable now app
              (upsert_provider now config o app.catalog))
    unfolding upsert_provider
    upsert-Keeps now app config o g how h =
        commit-Keeps (Unit {0}) now app (upsert_provider now config o app.catalog) g
          (upsert-IsValid now config o app.catalog how g.valid)
          (store-Decrypts config.id o app.catalog.credentials h g.decrypts)

    -- The other tables hold no credentials, and a deletion adds none.
    pub delete-Decrypts :
        (id : Str) (c d : Catalog)
        → delete_provider id c ≡ some d
        → Decrypts c.credentials
        → Decrypts d.credentials
    unfolding delete_provider
    delete-Decrypts id c d e h = elim (Bool-cases (any (refers_to id) c.targets)) [
      | inl used ↦ absurd (let n : ◌≡◌ {A = Option Catalog} none (some d) = rw used at e in cc n)
      | inr free ↦
          let s : ◌≡◌ {A = Option Catalog} (some (erase_provider id c)) (some d) = rw free at e in
          let same : erase_provider id c ≡ d = cc s in
          rw (sym same) (λ j. rw (lookup-erase j id c.credentials) (elim (Bool-cases (id == j)) [
            | inl gone ↦ rw gone (λ f. cc f)
            | inr other ↦ rw other (h j)
          ]))
    ]

    pub routes-Decrypts :
        (now : ℕ) (routes : Dict Str (List RouteTarget)) (c d : Catalog)
        → replace_routes now routes c ≡ some d
        → Decrypts c.credentials
        → Decrypts d.credentials
    unfolding replace_routes
    routes-Decrypts now routes c d e h = rw (same_credentials e) h
      where
        same_credentials : replace_routes now routes c ≡ some d → d.credentials ≡ c.credentials
        same_credentials f = ground arith

    pub pricing-Decrypts :
        (prices : List PriceRow) (c d : Catalog)
        → replace_pricing prices c ≡ some d
        → Decrypts c.credentials
        → Decrypts d.credentials
    unfolding replace_pricing
    pricing-Decrypts prices c d e h = rw (same_credentials e) h
      where
        same_credentials : replace_pricing prices c ≡ some d → d.credentials ≡ c.credentials
        same_credentials f = ground arith
