-- ===== src/Catalog/Valid.antt =====
-- The invariant of the catalog's tables, and the operations of app/db.py that keep it.
use prismux.Prelude.{
  ℕ, ◌+◌, ◌≡◌, refl, sym, ◌∙◌, ◌⊎◌, inl, inr, Bool, true, false, not, ◌&&◌, ◌||◌, Bool-cases,
  Option, none, some, List, [], ◌∷◌, All, any, all, select, Dict, lookup, insert, erase, has_key,
  map_values, total, IsDistinct, insert-IsDistinct, erase-IsDistinct, Str, text_eq, ◌==◌, eq_iff,
  arith, if◌then◌else◌,
}
use prismux.Provider.Config.{ProviderConfig, RouteTarget}
use prismux.Catalog
use prismux.Catalog.{
  Catalog, ProviderRow, TargetRow, PriceRow, no_default, clear_defaults, row_of, upsert_provider,
  erase_provider, delete_provider, refers_to, all_targets, fits, replace_routes, replace_pricing,
}

abbrev pub flag : ProviderRow → ℕ
flag row = if row.is_default then 1 else 0

abbrev pub defaults : Dict Str ProviderRow → ℕ
defaults = total flag

abbrev pub flag_of : Option ProviderRow → ℕ
flag_of none = 0
flag_of (some row) = flag row

abbrev pub RowIsSound : Str × ProviderRow → Type 0
RowIsSound (id, row) = (row.config.id ≡ id) × (row.config.is_default ≡ row.is_default)

abbrev pub Refers : Dict Str ProviderRow → Str → Type 0
Refers providers id = has_key id providers ≡ true

-- Ids are unique and are those of the settings, exactly one provider is the default one, and the
-- route targets and the prices refer to providers that are there.
pub record IsValid (c : Catalog) : Type 0 where
  pub distinct : IsDistinct c.providers
  pub sound : All RowIsSound c.providers
  pub one_default : defaults c.providers ≡ 1
  pub routed : All (λ (row : TargetRow). Refers c.providers row.provider_id) c.targets
  pub priced : All (λ (row : PriceRow). Refers c.providers row.provider_id) c.pricing

defaults-insert :
    (k : Str) (row : ProviderRow) (d : Dict Str ProviderRow)
    → defaults (insert k row d) + flag_of (lookup k d) ≡ defaults d + flag row
unfolding insert lookup
defaults-insert k row [] = omega arith
defaults-insert k row ((j, w) ∷ d) = elim (Bool-cases (j == k)) [
  | inl same ↦ rw same (omega arith)
  | inr other ↦ rw other (omega (arith, defaults-insert k row d))
]

erase_absent : (k : Str) (d : Dict Str ProviderRow) → lookup k d ≡ none → erase k d ≡ d
unfolding erase lookup
erase_absent k [] h = refl
erase_absent k ((j, w) ∷ d) h = ground (arith, erase_absent k d)

defaults-erase :
    (k : Str) (d : Dict Str ProviderRow)
    → IsDistinct d
    → defaults (erase k d) + flag_of (lookup k d) ≡ defaults d
unfolding erase lookup
defaults-erase k [] h = omega arith
defaults-erase k ((j, w) ∷ d) h = elim (Bool-cases (j == k)) [
  | inl same ↦
      let absent : lookup k d ≡ none = rw ((eq_iff j k).0 same) at h.0 in
      rw (same, erase_absent k d absent) (omega arith)
  | inr other ↦ rw other (omega (arith, defaults-erase k d h.1))
]

pub has_key-insert :
    (j k : Str) (row : ProviderRow) (d : Dict Str ProviderRow)
    → has_key j (insert k row d) ≡ ((k == j) || has_key j d)
unfolding insert has_key
has_key-insert j k row [] = refl
has_key-insert j k row ((i, w) ∷ d) =
    ground (arith, eq_iff i k, eq_iff i j, eq_iff k j, has_key-insert j k row d)

has_key-erase :
    (j k : Str) (d : Dict Str ProviderRow) → has_key j (erase k d) ≡ (not (k == j) && has_key j d)
unfolding erase has_key
has_key-erase j k [] = ground arith
has_key-erase j k ((i, w) ∷ d) =
    ground (arith, eq_iff i k, eq_iff i j, eq_iff k j, has_key-erase j k d)

lookup-map_values :
    (f : ProviderRow → ProviderRow) (k : Str) (d : Dict Str ProviderRow)
    → lookup k d ≡ none
    → lookup k (map_values f d) ≡ none
unfolding lookup
lookup-map_values f k [] h = refl
lookup-map_values f k ((j, w) ∷ d) h = ground (arith, lookup-map_values f k d)

-- The tables after `UPDATE providers SET is_default = 0`.
record IsCleared (d e : Dict Str ProviderRow) : Type 0 where
  distinct : IsDistinct e
  sound : All RowIsSound e
  none_default : defaults e ≡ 0
  same_keys : (k : Str) → has_key k e ≡ has_key k d
  not_default : (k : Str) → flag_of (lookup k e) ≡ 0

cleared :
    (d : Dict Str ProviderRow)
    → IsDistinct d
    → All RowIsSound d
    → IsCleared d (map_values no_default d)
unfolding has_key lookup
cleared [] h s = record {
  distinct = tt;
  sound = tt;
  none_default = refl;
  same_keys = λ k. refl;
  not_default = λ k. refl;
}
cleared ((j, w) ∷ d) h s =
    let r = cleared d h.1 s.1 in
    record {
      distinct = (lookup-map_values no_default j d h.0, r.distinct);
      sound = ((s.0.0, refl), r.sound);
      none_default = omega (arith, r.none_default);
      same_keys = λ k. rw (r.same_keys k) refl;
      not_default = λ k. ground (arith, r.not_default k);
    }

insert_sound :
    (k : Str) (row : ProviderRow) (d : Dict Str ProviderRow)
    → RowIsSound (k, row)
    → All RowIsSound d
    → All RowIsSound (insert k row d)
unfolding insert
insert_sound k row [] p h = (p, tt)
insert_sound k row ((j, w) ∷ d) p h = elim (Bool-cases (j == k)) [
  | inl same ↦ rw same ((p.0 ∙ sym ((eq_iff j k).0 same), p.1), h.1)
  | inr other ↦ rw other (h.0, insert_sound k row d p h.1)
]

erase_sound : (k : Str) (d : Dict Str ProviderRow) → All RowIsSound d → All RowIsSound (erase k d)
unfolding erase
erase_sound k [] h = h
erase_sound k ((j, w) ∷ d) h = elim (Bool-cases (j == k)) [
  | inl same ↦ rw same (erase_sound k d h.1)
  | inr other ↦ rw other (h.0, erase_sound k d h.1)
]

-- References stay good where no provider is lost.
All-Refers :
    {A : Type 0} (id_of : A → Str) (d e : Dict Str ProviderRow) (rows : List A)
    → ((k : Str) → has_key k d ≡ true → has_key k e ≡ true)
    → All (λ row. Refers d (id_of row)) rows
    → All (λ row. Refers e (id_of row)) rows
All-Refers id_of d e [] keep h = tt
All-Refers id_of d e (row ∷ rows) keep h =
    (keep (id_of row) h.0, All-Refers id_of d e rows keep h.1)

-- A row is stored under its id, in tables that were cleared of the default before if it is the new
-- one; otherwise it may not take the place of the default.
pub upsert-IsValid :
    (now : ℕ) (config : ProviderConfig) (credentials : Option Str) (c : Catalog)
    → (config.is_default ≡ true) ⊎ (flag_of (lookup config.id c.providers) ≡ 0)
    → IsValid c
    → IsValid (upsert_provider now config credentials c)
unfolding upsert_provider
upsert-IsValid now config credentials c how v = stored config.is_default refl
  where
    stored :
        (b : Bool)
        → config.is_default ≡ b
        → let d = clear_defaults b c.providers in
          IsValid (record (upsert_provider now config credentials c) {
            providers = insert config.id (row_of now config (lookup config.id d)) d;
          })
    stored true e =
        let r = cleared c.providers v.distinct v.sound in
        let d = map_values no_default c.providers in
        let row = row_of now config (lookup config.id d) in
        let keep : (k : Str)
            → has_key k c.providers ≡ true
            → has_key k (insert config.id row d) ≡ true =
          λ k h. has_key-insert k config.id row d ∙ rw (r.same_keys k) (ground (arith, h)) in
        record {
          distinct = insert-IsDistinct config.id row d r.distinct;
          sound = insert_sound config.id row d (refl, refl) r.sound;
          one_default =
              (let k = defaults-insert config.id row d in
                let l = r.not_default config.id in
                let m = r.none_default in
                let one : flag row ≡ 1 = rw e refl in omega (arith, k, l, m, one));
          routed = All-Refers (λ row. row.provider_id) c.providers _ c.targets keep v.routed;
          priced = All-Refers (λ row. row.provider_id) c.providers _ c.pricing keep v.priced;
        }
    stored false e =
        let d = c.providers in
        let row = row_of now config (lookup config.id d) in
        let keep : (k : Str) → has_key k d ≡ true → has_key k (insert config.id row d) ≡ true =
          λ k h. has_key-insert k config.id row d ∙ ground (arith, h) in
        record {
          distinct = insert-IsDistinct config.id row d v.distinct;
          sound = insert_sound config.id row d (refl, refl) v.sound;
          one_default =
              (let k = defaults-insert config.id row d in
                let zero_row : flag row ≡ 0 = rw e refl in
                let old : flag_of (lookup config.id d) ≡ 0 = ground (arith, how, e) in
                omega (arith, k, old, zero_row, v.one_default));
          routed = All-Refers (λ row. row.provider_id) d _ c.targets keep v.routed;
          priced = All-Refers (λ row. row.provider_id) d _ c.pricing keep v.priced;
        }

-- What holds of all rows holds of those that are selected.
All-select :
    {A : Type 0} (P : A → Type 0) (p : A → Bool) (rows : List A)
    → All P rows
    → All P (select p rows)
All-select P p [] h = h
All-select P p (row ∷ rows) h = elim (Bool-cases (p row)) [
  | inl kept ↦ rw kept (h.0, All-select P p rows h.1)
  | inr left ↦ rw left (All-select P p rows h.1)
]

others-Refers :
    (id : Str) (d : Dict Str ProviderRow) (rows : List PriceRow)
    → All (λ (row : PriceRow). Refers d row.provider_id) rows
    → All
        (λ (row : PriceRow). Refers (erase id d) row.provider_id)
        (select (λ row. not (row.provider_id == id)) rows)
others-Refers id d [] h = tt
others-Refers id d (row ∷ rows) h = elim (Bool-cases (row.provider_id == id)) [
  | inl gone ↦ rw gone (others-Refers id d rows h.1)
  | inr other ↦ rw other (
    has_key-erase row.provider_id id d
        ∙ ground (arith, h.0, other, eq_iff id row.provider_id, eq_iff row.provider_id id),
    others-Refers id d rows h.1,
  )
]

unreferred-Refers :
    (id : Str) (d : Dict Str ProviderRow) (rows : List TargetRow)
    → any (refers_to id) rows ≡ false
    → All (λ (row : TargetRow). Refers d row.provider_id) rows
    → All (λ (row : TargetRow). Refers (erase id d) row.provider_id) rows
unreferred-Refers id d [] n h = tt
unreferred-Refers id d (row ∷ rows) n h = (
  has_key-erase row.provider_id id d
      ∙ ground (arith, h.0, n, eq_iff id row.provider_id, eq_iff row.provider_id id),
  unreferred-Refers id d rows (ground (arith, n)) h.1,
)

-- A provider that is not the default one goes, with what cascades, unless a route refers to it.
pub delete-IsValid :
    (id : Str) (c d : Catalog)
    → delete_provider id c ≡ some d
    → flag_of (lookup id c.providers) ≡ 0
    → IsValid c
    → IsValid d
unfolding delete_provider
delete-IsValid id c d e f v = elim (Bool-cases (any (refers_to id) c.targets)) [
  | inl used ↦ absurd (let n : ◌≡◌ {A = Option Catalog} none (some d) = rw used at e in cc n)
  | inr free ↦
      let s : ◌≡◌ {A = Option Catalog} (some (erase_provider id c)) (some d) = rw free at e in
      let same : erase_provider id c ≡ d = cc s in
      rw (sym same) (record {
        distinct = erase-IsDistinct id c.providers v.distinct;
        sound = erase_sound id c.providers v.sound;
        one_default = omega (arith, defaults-erase id c.providers v.distinct, f, v.one_default);
        routed = unreferred-Refers id c.providers c.targets free v.routed;
        priced = others-Refers id c.providers c.pricing v.priced;
      })
]

all-Refers :
    {A : Type 0} (id_of : A → Str) (d : Dict Str ProviderRow) (rows : List A)
    → all (λ row. has_key (id_of row) d) rows ≡ true
    → All (λ row. Refers d (id_of row)) rows
all-Refers id_of d [] h = tt
all-Refers id_of d (row ∷ rows) h = (ground (arith, h), all-Refers id_of d rows (ground (arith, h)))

pub replace_routes-IsValid :
    (now : ℕ) (routes : Dict Str (List RouteTarget)) (c d : Catalog)
    → replace_routes now routes c ≡ some d
    → IsValid c
    → IsValid d
unfolding replace_routes
replace_routes-IsValid now routes c d e v =
    elim (Bool-cases
      (all (λ (row : TargetRow). has_key row.provider_id c.providers) (all_targets routes))) [
        | inr unknown ↦
            absurd (let n : ◌≡◌ {A = Option Catalog} none (some d) = rw unknown at e in cc n)
        | inl good ↦
            let s : ◌≡◌ {A = Option Catalog}
                (some (record c {
                  routes = Catalog.route_rows now routes;
                  targets = all_targets routes;
                }))
                (some d) =
              rw good at e in
            let same : (let x : Catalog = record c {
              routes = Catalog.route_rows now routes;
              targets = all_targets routes;
            } in
                  x)
                ≡ d =
              cc s in
            rw (sym same) (record {
              distinct = v.distinct;
              sound = v.sound;
              one_default = v.one_default;
              routed = all-Refers (λ row. row.provider_id) c.providers (all_targets routes) good;
              priced = v.priced;
            })
      ]

pub replace_pricing-IsValid :
    (prices : List PriceRow) (c d : Catalog)
    → replace_pricing prices c ≡ some d
    → IsValid c
    → IsValid d
unfolding replace_pricing
replace_pricing-IsValid prices c d e v =
    elim (Bool-cases
      (all (λ (row : PriceRow). has_key row.provider_id c.providers) prices && all fits prices)) [
        | inr unknown ↦
            absurd (let n : ◌≡◌ {A = Option Catalog} none (some d) = rw unknown at e in cc n)
        | inl both ↦
            let good : all (λ (row : PriceRow). has_key row.provider_id c.providers) prices ≡ true =
              ground (arith, both) in
            let s : ◌≡◌ {A = Option Catalog} (some (record c { pricing = prices })) (some d) =
              rw both at e in
            let same : (let x : Catalog = record c { pricing = prices } in x) ≡ d = cc s in
            rw (sym same) (record {
              distinct = v.distinct;
              sound = v.sound;
              one_default = v.one_default;
              routed = v.routed;
              priced = all-Refers (λ row. row.provider_id) c.providers prices good;
            })
      ]
