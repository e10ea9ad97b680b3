-- ===== src/Prelude/Sort.antt =====
-- SQL's `ORDER BY`: insertion sort by a test, and dictionaries whose rows are put in order.
use mathlib.Core.Path.{◌≡◌, refl, ◌∙◌}
use mathlib.Core.Logic.{inl, inr}
use mathlib.Core.Bool.{Bool}
use mathlib.Core.Option.{none, some}
use mathlib.Core.List.{List, [], ◌∷◌}
use native.Mathlib.Omega.{arith}
use prismux.Prelude.Tests.{if◌then◌else◌, Bool-cases}
use prismux.Prelude.Equality.{Eq, ◌==◌, eq_iff}
use prismux.Prelude.Lists.{All}
use prismux.Prelude.Dictionary.{Dict, lookup, insert, erase, lookup-insert, lookup-erase}

module _ {ℓ} {A : Type ℓ} where
  unfoldable pub insert_by : (A → A → Bool) → A → List A → List A
  insert_by before a [] = a ∷ []
  insert_by before a (x ∷ xs) =
      let rest = insert_by before a xs in if before x a then x ∷ rest else a ∷ (x ∷ xs)

  unfoldable pub sort_by : (A → A → Bool) → List A → List A
  sort_by before [] = []
  sort_by before (x ∷ xs) = insert_by before x (sort_by before xs)

module _ {ℓ κ} {K : Type ℓ} {V : Type κ} ⦃e : Eq K⦄ where
  -- No key has two rows.
  abbrev pub IsDistinct : Dict K V → Type κ
  IsDistinct [] = Unit
  IsDistinct ((k, v) ∷ d) = (lookup k d ≡ none) × IsDistinct d

  pub insert-IsDistinct : (k : K) (v : V) (d : Dict K V) → IsDistinct d → IsDistinct (insert k v d)
  unfolding insert lookup
  insert-IsDistinct k v [] h = (refl, tt)
  insert-IsDistinct k v ((j, w) ∷ d) h = elim (Bool-cases (j == k)) [
    | inl same ↦ rw same h
    | inr other ↦ rw other (
      lookup-insert j k v d ∙ ground (arith, eq_iff j k, eq_iff k j, h.0),
      insert-IsDistinct k v d h.1,
    )
  ]

  pub erase-IsDistinct : (k : K) (d : Dict K V) → IsDistinct d → IsDistinct (erase k d)
  unfolding erase
  erase-IsDistinct k [] h = tt
  erase-IsDistinct k ((j, w) ∷ d) h = elim (Bool-cases (j == k)) [
    | inl same ↦ rw same (erase-IsDistinct k d h.1)
    | inr other ↦
        rw other (
          lookup-erase j k d ∙ ground (arith, eq_iff j k, eq_iff k j, h.0),
          erase-IsDistinct k d h.1,
        )
  ]

  lookup-insert_by :
      (before : K × V → K × V → Bool) (j k : K) (v : V) (d : Dict K V)
      → lookup k d ≡ none
      → lookup j (insert_by before (k, v) d) ≡ (if k == j then some v else lookup j d)
  unfolding insert_by lookup
  lookup-insert_by before j k v [] h = refl
  lookup-insert_by before j k v ((i, w) ∷ d) h =
      ground (arith, eq_iff k j, eq_iff i k, eq_iff i j, lookup-insert_by before j k v d)

  -- Putting rows with distinct keys in order changes no look-up.
  pub lookup-sort_by :
      (before : K × V → K × V → Bool) (d : Dict K V) (j : K)
      → IsDistinct d
      → lookup j (sort_by before d) ≡ lookup j d
  unfolding sort_by lookup
  lookup-sort_by before [] j h = refl
  lookup-sort_by before ((k, v) ∷ d) j h =
      lookup-insert_by before j k v (sort_by before d) (lookup-sort_by before d k h.1 ∙ h.0)
      ∙ rw (lookup-sort_by before d j h.1) refl

module _ {ℓ κ} {A : Type ℓ} where
  All-insert_by :
      (P : A → Type κ) (before : A → A → Bool) (a : A) (xs : List A)
      → P a
      → All P xs
      → All P (insert_by before a xs)
  unfolding insert_by
  All-insert_by P before a [] p h = (p, tt)
  All-insert_by P before a (x ∷ xs) p h = elim (Bool-cases (before x a)) [
    | inl first ↦ rw first (h.0, All-insert_by P before a xs p h.1)
    | inr last ↦ rw last (p, h)
  ]

  pub All-sort_by :
      (P : A → Type κ) (before : A → A → Bool) (xs : List A) → All P xs → All P (sort_by before xs)
  unfolding sort_by
  All-sort_by P before [] h = h
  All-sort_by P before (x ∷ xs) h =
      All-insert_by P before x (sort_by before xs) h.0 (All-sort_by P before xs h.1)
