-- ===== src/Catalog/Known.antt =====
-- The references that the handlers of app/main.py let through are those that the tables accept.
use prismux.Prelude.{
  ℕ, ◌+◌, ◌≡◌, ◌≢◌, refl, sym, ap, ◌∙◌, inl, inr, Bool, true, false, not, ◌&&◌, ◌||◌, Bool-cases,
  Option, none, some, List, [], ◌∷◌, ◌++◌, any, all, select, is_empty, Dict, lookup, has_key,
  has_text, has_key-lookup, lookup-none-has_key, sort_by, insert_by, Str, text, text_eq, ◌==◌,
  is_blank, strip, arith,
}
use prismux.Provider.Config.{RouteTarget}
use prismux.Provider.Runtime.{Runtime}
use prismux.Provider.Registry.{Registry}
use prismux.Catalog.{
  Catalog, PriceRow, TargetRow, refers_to, aliases_of, add_distinct, delete_provider,
  provider_route_references, target_rows, all_targets, fits, replace_routes, replace_pricing,
}
use prismux.Catalog.Handlers.{
  clean_targets, add_target, add_route, then_routes, normalize_routes, strip_models,
}
use prismux.Catalog.InStep.{InStep, config_in, config_at}

-- A provider that the registry serves is in the catalog.
pub known-Refers :
    (registry : Registry) (c : Catalog) (id : Str)
    → InStep registry c
    → has_key id registry.providers ≡ true
    → has_key id c.providers ≡ true
known-Refers registry c id step h = elim (Bool-cases (has_key id c.providers)) [
  | inl yes_known ↦ yes_known
  | inr unknown ↦
      let a : config_at (lookup id c.providers) ≡ none =
        ap config_at (has_key-lookup id c.providers unknown) in
      let k : lookup id registry.providers ≡ none =
        absent (lookup id registry.providers) (step id ∙ a) in
      let n = lookup-none-has_key id registry.providers k in absurd (cc (n, h))
]
  where
    absent : (o : Option Runtime) → config_in o ≡ none → o ≡ none
    absent none e = refl
    absent (some r) e = absurd (cc e)

is_empty-insert_by :
    {A : Type 0} (before : A → A → Bool) (a : A) (xs : List A)
    → is_empty (insert_by before a xs) ≡ false
unfolding insert_by
is_empty-insert_by before a [] = refl
is_empty-insert_by before a (x ∷ xs) = ground (arith, Bool-cases (before x a))

is_empty-references :
    (before : Str → Str → Bool) (rows : List TargetRow)
    → is_empty (sort_by before (aliases_of rows)) ≡ true
    → rows ≡ []
unfolding sort_by
is_empty-references before [] h = refl
is_empty-references before (row ∷ rows) h = absurd (cc (nonempty (aliases_of rows), h))
  where
    sorted : (s : Str) (ss : List Str) → is_empty (sort_by before (s ∷ ss)) ≡ false
    sorted s ss = is_empty-insert_by before s (sort_by before ss)

    nonempty : (ss : List Str) → is_empty (sort_by before (add_distinct row.alias ss)) ≡ false
    nonempty [] = sorted row.alias []
    nonempty (s ∷ ss) = elim (Bool-cases (any (λ t. t == row.alias) (s ∷ ss))) [
      | inl there ↦ rw there (sorted s ss)
      | inr missing ↦ rw missing (sorted row.alias (s ∷ ss))
    ]

any-select : {A : Type 0} (p : A → Bool) (rows : List A) → select p rows ≡ [] → any p rows ≡ false
any-select p [] h = refl
any-select p (row ∷ rows) h = elim (Bool-cases (p row)) [
  | inl hit ↦ absurd (let k : row ∷ select p rows ≡ [] = rw hit at h in cc k)
  | inr miss ↦ rw miss (any-select p rows (rw miss at h))
]

-- A provider that no route refers to can be deleted.
pub delete_provider-ne-none :
    (before : Str → Str → Bool) (id : Str) (c : Catalog)
    → is_empty (provider_route_references before id c) ≡ true
    → delete_provider id c ≢ none
unfolding provider_route_references delete_provider
delete_provider-ne-none before id c h =
    let free : any (refers_to id) c.targets ≡ false =
      any-select (refers_to id) c.targets
        (is_empty-references before (select (refers_to id) c.targets) h) in
    rw free (λ e. cc e)

all-append :
    {A : Type 0} (p : A → Bool) (xs ys : List A) → all p (xs ++ ys) ≡ (all p xs && all p ys)
all-append p [] ys = refl
all-append p (x ∷ xs) ys = rw (all-append p xs ys) (ground arith)

all_targets-snoc :
    (known : Str → Bool) (d : Dict Str (List RouteTarget)) (alias : Str) (ts : List RouteTarget)
    → all (λ (row : TargetRow). known row.provider_id) (all_targets (d ++ ((alias, ts) ∷ []))) ≡ (
        all (λ (row : TargetRow). known row.provider_id) (all_targets d)
        && all (λ (row : TargetRow). known row.provider_id) (target_rows alias 0 ts))
all_targets-snoc known [] alias ts =
    all-append (λ (row : TargetRow). known row.provider_id) (target_rows alias 0 ts) []
    ∙ ground arith
all_targets-snoc known ((a, us) ∷ d) alias ts =
    let p = λ (row : TargetRow). known row.provider_id in
    all-append p (target_rows a 0 us) (all_targets (d ++ ((alias, ts) ∷ [])))
    ∙ rw (all_targets-snoc known d alias ts, all-append p (target_rows a 0 us) (all_targets d))
        (ground arith)

abbrev AllKnown : (Str → Bool) → List TargetRow → Type 0
AllKnown known rows = all (λ (row : TargetRow). known row.provider_id) rows ≡ true

add_target-AllKnown :
    (known : Str → Bool) (alias : Str) (index : ℕ) (t : RouteTarget) (o : Option (List RouteTarget))
    (us : List RouteTarget)
    → known t.provider_id ≡ true
    → ((vs : List RouteTarget) → o ≡ some vs → AllKnown known (target_rows alias (index + 1) vs))
    → add_target t o ≡ some us
    → AllKnown known (target_rows alias index us)
unfolding target_rows
add_target-AllKnown known alias index t none us k h e =
    absurd (let n : ◌≡◌ {A = Option (List RouteTarget)} none (some us) = e in cc n)
add_target-AllKnown known alias index t (some vs) us k h e =
    let cleaned : RouteTarget = record { provider_id = t.provider_id; model = strip t.model } in
    let same : cleaned ∷ vs ≡ us = cc e in rw (sym same, k) (h vs refl)

clean_targets-AllKnown :
    (known : Str → Bool) (alias : Str) (index : ℕ) (ts us : List RouteTarget)
    → clean_targets known ts ≡ some us
    → AllKnown known (target_rows alias index us)
unfolding clean_targets target_rows
clean_targets-AllKnown known alias index [] us e = let k : [] ≡ us = cc e in rw (sym k) refl
clean_targets-AllKnown known alias index (t ∷ ts) us e = elim (Bool-cases (known t.provider_id)) [
  | inr unknown ↦
      absurd (let n : ◌≡◌ {A = Option (List RouteTarget)} none (some us) = rw unknown at e in cc n)
  | inl here ↦ elim (Bool-cases (is_blank (strip t.model))) [
    | inl blank ↦
        absurd (
          let n : ◌≡◌ {A = Option (List RouteTarget)} none (some us) = rw (here, blank) at e in
          cc n)
    | inr fine ↦
        add_target-AllKnown known alias index t (clean_targets known ts) us here
          (λ vs f. clean_targets-AllKnown known alias (index + 1) ts vs f) (rw (here, fine) at e)
  ]
]

add_route-AllKnown :
    (known : Str → Bool) (alias : Str) (o : Option (List RouteTarget))
    (d e : Dict Str (List RouteTarget))
    → ((us : List RouteTarget) → o ≡ some us → AllKnown known (target_rows alias 0 us))
    → AllKnown known (all_targets d)
    → add_route alias o d ≡ some e
    → AllKnown known (all_targets e)
add_route-AllKnown known alias none d e h k f =
    absurd (let n : ◌≡◌ {A = Option (Dict Str (List RouteTarget))} none (some e) = f in cc n)
add_route-AllKnown known alias (some []) d e h k f =
    absurd (let n : ◌≡◌ {A = Option (Dict Str (List RouteTarget))} none (some e) = f in cc n)
add_route-AllKnown known alias (some (t ∷ ts)) d e h k f =
    elim (Bool-cases (is_blank alias || has_text (text "::") alias)) [
      | inl bad ↦ absurd (
          let n : ◌≡◌ {A = Option (Dict Str (List RouteTarget))} none (some e) = rw bad at f in
          cc n)
      | inr fine ↦ elim (Bool-cases (has_key alias d)) [
        | inl twice ↦ absurd (
            let n : ◌≡◌ {A = Option (Dict Str (List RouteTarget))} none (some e) =
              rw (fine, twice) at f in
            cc n)
        | inr once ↦
            let s : ◌≡◌ {A = Option (Dict Str (List RouteTarget))}
                (some (d ++ ((alias, t ∷ ts) ∷ []))) (some e) =
              rw (fine, once) at f in
            let same : d ++ ((alias, t ∷ ts) ∷ []) ≡ e = cc s in
            rw (sym same) (all_targets-snoc known d alias (t ∷ ts) ∙ rw (k, h (t ∷ ts) refl) refl)
      ]
    ]

-- Routes that pass the checks name only providers that are known.
pub normalize_routes-AllKnown :
    (known : Str → Bool) (routes d e : Dict Str (List RouteTarget))
    → AllKnown known (all_targets d)
    → normalize_routes known routes d ≡ some e
    → AllKnown known (all_targets e)
unfolding normalize_routes
normalize_routes-AllKnown known [] d e k f = let same : d ≡ e = cc f in rw (sym same) k
normalize_routes-AllKnown known ((raw, ts) ∷ routes) d e k f =
    next (add_route (strip raw) (clean_targets known ts) d)
      (λ m g.
        add_route-AllKnown known (strip raw) (clean_targets known ts) d m
          (λ us h. clean_targets-AllKnown known (strip raw) 0 ts us h) k g)
      (λ m l. normalize_routes-AllKnown known routes m e l) f
  where
    next :
        (o : Option (Dict Str (List RouteTarget)))
        → ((m : Dict Str (List RouteTarget)) → o ≡ some m → AllKnown known (all_targets m))
        → ((m : Dict Str (List RouteTarget))
            → AllKnown known (all_targets m)
            → normalize_routes known routes m ≡ some e
            → AllKnown known (all_targets e))
        → then_routes o (λ m. normalize_routes known routes m) ≡ some e
        → AllKnown known (all_targets e)
    next none h rest g =
        absurd (let n : ◌≡◌ {A = Option (Dict Str (List RouteTarget))} none (some e) = g in cc n)
    next (some m) h rest g = rest m (h m refl) g

all_of :
    {A : Type 0} (p q : A → Bool) (xs : List A)
    → ((x : A) → p x ≡ true → q x ≡ true)
    → all p xs ≡ true
    → all q xs ≡ true
all_of p q [] h a = refl
all_of p q (x ∷ xs) h a =
    let rest = all_of p q xs h (ground (arith, a)) in
    let here = h x (ground (arith, a)) in rw (here, rest) refl

module _ (registry : Registry) (c : Catalog) (step : InStep registry c) where
  abbrev serves : Str → Bool
  serves id = has_key id registry.providers

  -- The tables take the routes that pass the checks.
  pub replace_routes-ne-none :
      (now : ℕ) (routes d : Dict Str (List RouteTarget))
      → normalize_routes serves routes [] ≡ some d
      → replace_routes now d c ≢ none
  unfolding replace_routes
  replace_routes-ne-none now routes d e =
      let good =
        all_of (λ (row : TargetRow). serves row.provider_id)
          (λ (row : TargetRow). has_key row.provider_id c.providers) (all_targets d)
          (λ row h. known-Refers registry c row.provider_id step h)
          (normalize_routes-AllKnown serves routes [] d refl e) in
      rw good (λ f. cc f)

  stripped_known :
      (rows : List PriceRow)
      → any (λ (row : PriceRow). not (serves row.provider_id)) rows ≡ false
      → all (λ (row : PriceRow). has_key row.provider_id c.providers) (strip_models rows) ≡ true
  stripped_known [] h = refl
  stripped_known (row ∷ rows) h =
      let rest = stripped_known rows (ground (arith, h)) in
      let here = known-Refers registry c row.provider_id step (ground (arith, h)) in
      rw (here, rest) refl

  stripped_fits :
      (rows : List PriceRow) → all fits rows ≡ true → all fits (strip_models rows) ≡ true
  stripped_fits [] h = refl
  stripped_fits (row ∷ rows) h =
      let rest = stripped_fits rows (ground (arith, h)) in
      let here : fits row ≡ true = ground (arith, h) in rw rest (ground (arith, here))

  -- The tables take the prices that pass the checks and fit their columns.
  pub replace_pricing-ne-none :
      (rows : List PriceRow)
      → all fits rows ≡ true
      → any (λ (row : PriceRow). not (serves row.provider_id)) rows ≡ false
      → replace_pricing (strip_models rows) c ≢ none
  unfolding replace_pricing
  replace_pricing-ne-none rows k h = rw (stripped_known rows h, stripped_fits rows k) (λ f. cc f)
