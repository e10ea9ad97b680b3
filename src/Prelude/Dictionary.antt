-- ===== src/Prelude/Dictionary.antt =====
-- Python's `dict`, in insertion order.
use Prim.Native.Nat.{ℕ}
use mathlib.Core.Path.{◌≡◌, refl}
use mathlib.Core.Bool.{Bool, false, ◌||◌}
use mathlib.Core.List.{List, [], ◌∷◌}
use mathlib.Core.Option.{Option, none, some}
use native.Mathlib.Omega.{arith}
use prismux.Prelude.Tests.{if◌then◌else◌}
use prismux.Prelude.Equality.{Eq, ◌==◌, eq_iff, eq_refl}

abbrev pub Dict {ℓ κ} : Type ℓ → Type κ → Type (ℓ ⊔ κ)
Dict K V = List (K × V)

module _ {ℓ κ} {K : Type ℓ} {V : Type κ} where
  abbrev pub keys : Dict K V → List K
  keys [] = []
  keys ((k, v) ∷ d) = k ∷ keys d

  abbrev pub values : Dict K V → List V
  values [] = []
  values ((k, v) ∷ d) = v ∷ values d

  -- `sum(f(v) for v in d.values())`
  abbrev pub total : (V → ℕ) → Dict K V → ℕ
  total f [] = 0
  total f ((k, v) ∷ d) = Prim.Native.Nat.◌+◌ (f v) (total f d)

  abbrev pub map_values {μ} : {W : Type μ} → (V → W) → Dict K V → Dict K W
  map_values f [] = []
  map_values f ((k, v) ∷ d) = (k, f v) ∷ map_values f d

module _ {ℓ κ} {K : Type ℓ} {V : Type κ} ⦃e : Eq K⦄ where
  -- `d.get(k)`
  unfoldable pub lookup : K → Dict K V → Option V
  lookup k [] = none
  lookup k ((j, v) ∷ d) = if j == k then some v else lookup k d

  -- `d[k] = v`
  unfoldable pub insert : K → V → Dict K V → Dict K V
  insert k v [] = (k, v) ∷ []
  insert k v ((j, w) ∷ d) = if j == k then (j, v) ∷ d else (j, w) ∷ insert k v d

  -- `d.pop(k, None)`
  unfoldable pub erase : K → Dict K V → Dict K V
  erase k [] = []
  erase k ((j, w) ∷ d) = let rest = erase k d in if j == k then rest else (j, w) ∷ rest

  -- `k in d`
  unfoldable pub has_key : K → Dict K V → Bool
  has_key k [] = false
  has_key k ((j, v) ∷ d) = (j == k) || has_key k d

  abbrev pub lookup_or : K → Dict K V → V → V
  lookup_or k d v = elim (lookup k d) [ none ↦ v | some w ↦ w ]

  pub lookup-insert :
      (j k : K) (v : V) (d : Dict K V)
      → lookup j (insert k v d) ≡ (if k == j then some v else lookup j d)
  unfolding lookup insert
  lookup-insert j k v [] = refl
  lookup-insert j k v ((i, w) ∷ d) =
      ground (arith, eq_iff k j, eq_iff i k, eq_iff i j, lookup-insert j k v d)

  pub lookup-insert_self : (k : K) (v : V) (d : Dict K V) → lookup k (insert k v d) ≡ some v
  lookup-insert_self k v d = simp (lookup-insert, eq_refl)

  pub lookup-erase :
      (j k : K) (d : Dict K V) → lookup j (erase k d) ≡ (if k == j then none else lookup j d)
  unfolding lookup erase
  lookup-erase j k [] = ground arith
  lookup-erase j k ((i, w) ∷ d) =
      ground (arith, eq_iff k j, eq_iff i k, eq_iff i j, lookup-erase j k d)

  pub has_key-lookup : (k : K) (d : Dict K V) → has_key k d ≡ false → lookup k d ≡ none
  unfolding has_key lookup
  has_key-lookup k [] h = refl
  has_key-lookup k ((j, w) ∷ d) h = ground (arith, has_key-lookup k d)

  pub lookup-none-has_key : (k : K) (d : Dict K V) → lookup k d ≡ none → has_key k d ≡ false
  unfolding has_key lookup
  lookup-none-has_key k [] h = refl
  lookup-none-has_key k ((j, w) ∷ d) h = ground (arith, lookup-none-has_key k d)

pub ruleset dict_laws = (lookup-insert, lookup-erase, eq_refl)
