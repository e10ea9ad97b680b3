-- ===== src/Catalog/Routes.antt =====
-- Routes that are stored by `replace_routes` of app/db.py and loaded again by `load_routes`.
use prismux.Prelude.{
  ℕ, ◌+◌, ◌≡◌, refl, ap, ◌∙◌, inl, inr, Bool, true, false, ◌||◌, Bool-cases, Option, none, some,
  List, [], ◌∷◌, ◌++◌, map, All, any, select, Dict, lookup, has_key, insert_by, sort_by,
  All-sort_by, IsDistinct, Str, text_eq, ◌==◌, eq_iff, eq_refl, arith,
}
use prismux.Provider.Config.{RouteTarget}
use prismux.Catalog.{
  Catalog, RouteRow, TargetRow, target_rows, all_targets, route_rows, replace_routes, target_of,
  by_priority, targets_of, keep_route, join_routes, load_routes,
}

abbrev has_alias : Str → TargetRow → Bool
has_alias alias row = row.alias == alias

abbrev rows_of : Str → Option (List RouteTarget) → List TargetRow
rows_of alias none = []
rows_of alias (some ts) = target_rows alias 0 ts

select-append :
    {A : Type 0} (p : A → Bool) (xs ys : List A) → select p (xs ++ ys) ≡ select p xs ++ select p ys
select-append p [] ys = refl
select-append p (x ∷ xs) ys = rw (select-append p xs ys) (ground (arith, Bool-cases (p x)))

select_own :
    (alias : Str) (i : ℕ) (ts : List RouteTarget)
    → select (has_alias alias) (target_rows alias i ts) ≡ target_rows alias i ts
unfolding target_rows
select_own alias i [] = refl
select_own alias i (t ∷ ts) = rw (eq_refl alias, select_own alias (i + 1) ts) refl

select_other :
    (alias a : Str) (i : ℕ) (ts : List RouteTarget)
    → (a == alias) ≡ false
    → select (has_alias alias) (target_rows a i ts) ≡ []
unfolding target_rows
select_other alias a i [] h = refl
select_other alias a i (t ∷ ts) h = rw (h, select_other alias a (i + 1) ts h) refl

append_nil : {A : Type 0} (xs : List A) → xs ++ [] ≡ xs
append_nil [] = refl
append_nil (x ∷ xs) = ap (◌∷◌ x) (append_nil xs)

select-all_targets :
    (alias : Str) (routes : Dict Str (List RouteTarget))
    → IsDistinct routes
    → select (has_alias alias) (all_targets routes) ≡ rows_of alias (lookup alias routes)
unfolding lookup
select-all_targets alias [] h = refl
select-all_targets alias ((a, ts) ∷ routes) h =
    select-append (has_alias alias) (target_rows a 0 ts) (all_targets routes)
    ∙ elim (Bool-cases (a == alias)) [
      | inl same ↦
          let e : a ≡ alias = (eq_iff a alias).0 same in
          let absent : lookup alias routes ≡ none = rw e at h.0 in
          rw (same, e, select_own alias 0 ts, select-all_targets alias routes h.1, absent)
            (append_nil (target_rows alias 0 ts))
      | inr other ↦
          rw (other, select_other alias a 0 ts other) (select-all_targets alias routes h.1)
    ]

-- Rows that are numbered upwards are in their order.
sort_by-target_rows :
    (alias : Str) (i : ℕ) (ts : List RouteTarget)
    → sort_by by_priority (target_rows alias i ts) ≡ target_rows alias i ts
unfolding sort_by insert_by target_rows
sort_by-target_rows alias i [] = refl
sort_by-target_rows alias i (t ∷ []) = refl
sort_by-target_rows alias i (t ∷ u ∷ ts) =
    rw (sort_by-target_rows alias (i + 1) (u ∷ ts)) (ground arith)

map-target_rows :
    (alias : Str) (i : ℕ) (ts : List RouteTarget) → map target_of (target_rows alias i ts) ≡ ts
unfolding target_rows
map-target_rows alias i [] = refl
map-target_rows alias i (t ∷ ts) = ap (◌∷◌ t) (map-target_rows alias (i + 1) ts)

abbrev or_empty : Option (List RouteTarget) → List RouteTarget
or_empty none = []
or_empty (some ts) = ts

targets_of-all_targets :
    (alias : Str) (routes : Dict Str (List RouteTarget))
    → IsDistinct routes
    → targets_of alias (all_targets routes) ≡ or_empty (lookup alias routes)
unfolding targets_of sort_by
targets_of-all_targets alias routes h =
    ap (λ rows. map target_of (sort_by by_priority rows)) (select-all_targets alias routes h)
    ∙ sorted (lookup alias routes)
  where
    sorted :
        (o : Option (List RouteTarget))
        → map target_of (sort_by by_priority (rows_of alias o)) ≡ or_empty o
    sorted none = refl
    sorted (some ts) =
        ap (map target_of) (sort_by-target_rows alias 0 ts) ∙ map-target_rows alias 0 ts

abbrev if_any : Bool → List RouteTarget → Option (List RouteTarget)
if_any false ts = none
if_any true [] = none
if_any true (t ∷ ts) = some (t ∷ ts)

abbrev names : Str → RouteRow → Bool
names alias row = row.alias == alias

lookup-join_routes :
    (alias : Str) (targets : List TargetRow) (rows : List RouteRow)
    → All (λ (row : RouteRow). row.enabled ≡ true) rows
    → lookup alias (join_routes targets rows)
      ≡ if_any (any (names alias) rows) (targets_of alias targets)
unfolding join_routes lookup
lookup-join_routes alias targets [] h = refl
lookup-join_routes alias targets (row ∷ rows) h = elim (Bool-cases (row.alias == alias)) [
  | inl same ↦
      let e : row.alias ≡ alias = (eq_iff row.alias alias).0 same in
      rw (same, e) (found (targets_of alias targets) (lookup-join_routes alias targets rows h.1))
  | inr other ↦
      rw other
        (skipped (targets_of row.alias targets) (lookup-join_routes alias targets rows h.1) other)
]
  where
    found :
        (ts : List RouteTarget)
        → lookup alias (join_routes targets rows) ≡ if_any (any (names alias) rows) ts
        → lookup alias (keep_route (record row { alias = alias }) ts (join_routes targets rows))
          ≡ if_any true ts
    found [] k = k ∙ ground (arith, Bool-cases (any (names alias) rows))
    found (t ∷ ts) k = rw (h.0, eq_refl alias) refl

    skipped :
        (ts : List RouteTarget)
        → lookup alias (join_routes targets rows)
          ≡ if_any (any (names alias) rows) (targets_of alias targets)
        → (row.alias == alias) ≡ false
        → lookup alias (keep_route row ts (join_routes targets rows))
          ≡ if_any (any (names alias) rows) (targets_of alias targets)
    skipped [] k n = k
    skipped (t ∷ ts) k n = rw (h.0, n) k

any-insert_by :
    {A : Type 0} (p : A → Bool) (before : A → A → Bool) (a : A) (xs : List A)
    → any p (insert_by before a xs) ≡ (p a || any p xs)
unfolding insert_by
any-insert_by p before a [] = refl
any-insert_by p before a (x ∷ xs) =
    ground (arith, any-insert_by p before a xs, Bool-cases (before x a))

any-sort_by :
    {A : Type 0} (p : A → Bool) (before : A → A → Bool) (xs : List A)
    → any p (sort_by before xs) ≡ any p xs
unfolding sort_by
any-sort_by p before [] = refl
any-sort_by p before (x ∷ xs) =
    any-insert_by p before x (sort_by before xs) ∙ rw (any-sort_by p before xs) refl

any-route_rows :
    (now : ℕ) (alias : Str) (routes : Dict Str (List RouteTarget))
    → any (names alias) (route_rows now routes) ≡ has_key alias routes
unfolding has_key
any-route_rows now alias [] = refl
any-route_rows now alias ((a, ts) ∷ routes) = rw (any-route_rows now alias routes) refl

enabled_rows :
    (now : ℕ) (routes : Dict Str (List RouteTarget))
    → All (λ (row : RouteRow). row.enabled ≡ true) (route_rows now routes)
enabled_rows now [] = tt
enabled_rows now ((a, ts) ∷ routes) = (refl, enabled_rows now routes)

-- A route that has a target.
abbrev pub HasTarget : Str × List RouteTarget → Type 0
HasTarget (alias, []) = ⊥
HasTarget (alias, t ∷ ts) = Unit {0}

looked_up :
    (alias : Str) (routes : Dict Str (List RouteTarget))
    → All HasTarget routes
    → if_any (has_key alias routes) (or_empty (lookup alias routes)) ≡ lookup alias routes
unfolding has_key lookup
looked_up alias [] h = refl
looked_up alias ((a, []) ∷ routes) h = absurd h.0
looked_up alias ((a, t ∷ ts) ∷ routes) h = elim (Bool-cases (a == alias)) [
  | inl same ↦ rw same refl
  | inr other ↦ rw other (looked_up alias routes h.1)
]

-- Routes with distinct aliases, each with a target, that the tables take are loaded again as they
-- were stored: every alias has its targets, in their order, and no other alias is there.
pub load_routes-replace_routes :
    (now : ℕ) (text_before : Str → Str → Bool) (routes : Dict Str (List RouteTarget))
    (c d : Catalog) (alias : Str)
    → IsDistinct routes
    → All HasTarget routes
    → replace_routes now routes c ≡ some d
    → lookup alias (load_routes text_before d) ≡ lookup alias routes
unfolding load_routes replace_routes
load_routes-replace_routes now text_before routes c d alias distinct full e =
    let before = λ (x y : RouteRow). text_before x.alias y.alias in
    let rows : d.routes ≡ route_rows now routes = ground arith in
    let targets : d.targets ≡ all_targets routes = ground arith in
    rw (rows, targets)
      (lookup-join_routes alias (all_targets routes) (sort_by before (route_rows now routes)) (
          All-sort_by (λ (row : RouteRow). row.enabled ≡ true) before (route_rows now routes)
            (enabled_rows now routes))
        ∙ ap (λ b. if_any b (targets_of alias (all_targets routes)))
            (any-sort_by (names alias) before (route_rows now routes)
              ∙ any-route_rows now alias routes)
        ∙ ap (if_any (has_key alias routes)) (targets_of-all_targets alias routes distinct)
        ∙ looked_up alias routes full)
