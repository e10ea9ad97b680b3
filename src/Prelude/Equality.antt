-- ===== src/Prelude/Equality.antt =====
-- Python's `==` and `in`, for every type that has an equality test.
use Prim.Native.Nat.{ℕ}
use mathlib.Core.Path.{◌≡◌, refl}
use mathlib.Core.Logic.{◌↔◌, ◌≢◌}
use mathlib.Core.Bool.{Bool, true, false, ◌&&◌, ◌||◌}
use mathlib.Core.List.{List, [], ◌∷◌}
use native.Mathlib.Omega.{arith}
use prismux.Prelude.Tests.{nat_eq, nat_eq_iff}

pub record Eq {ℓ} (A : Type ℓ) : Type ℓ where
  -- The test, which finds equal values and no others.
  pub test : (a b : A) → Bool
  pub test_iff : (a b : A) → test a b ≡ true ↔ a ≡ b

infix 50 ◌==◌
abbrev pub ◌==◌ {ℓ} : {A : Type ℓ} ⦃e : Eq A⦄ → A → A → Bool
◌==◌ ⦃e⦄ = e.test

instance abbrev pub ℕ_eq : Eq ℕ
ℕ_eq = record { test = nat_eq; test_iff = nat_eq_iff }

module _ {ℓ} {A : Type ℓ} ⦃e : Eq A⦄ where
  pub eq_iff : (a b : A) → ((a == b) ≡ true) ↔ (a ≡ b)
  eq_iff a b = e.test_iff a b

  pub eq_refl : (a : A) → (a == a) ≡ true
  eq_refl a = (e.test_iff a a).1 refl

  pub eq_false : (a b : A) → a ≢ b → (a == b) ≡ false
  eq_false a b h = ground (arith, e.test_iff a b)

  abbrev pub contains : List A → A → Bool
  contains [] a = false
  contains (x ∷ xs) a = (x == a) || contains xs a

  unfoldable pub list_beq : List A → List A → Bool
  list_beq [] [] = true
  list_beq [] (y ∷ ys) = false
  list_beq (x ∷ xs) [] = false
  list_beq (x ∷ xs) (y ∷ ys) = (x == y) && list_beq xs ys

  pub list_beq_iff : (xs ys : List A) → (list_beq xs ys ≡ true) ↔ (xs ≡ ys)
  unfolding list_beq
  list_beq_iff [] [] = (λ h. refl, λ h. refl)
  list_beq_iff [] (y ∷ ys) = (λ h. cc, λ h. cc)
  list_beq_iff (x ∷ xs) [] = (λ h. cc, λ h. cc)
  list_beq_iff (x ∷ xs) (y ∷ ys) = ground (arith, e.test_iff x y, list_beq_iff xs ys)

module _ {ℓ κ} {A : Type ℓ} {B : Type κ} ⦃e : Eq A⦄ ⦃f : Eq B⦄ where
  unfoldable pub pair_beq : A × B → A × B → Bool
  pair_beq (a, b) (c, d) = e.test a c && f.test b d

  pub pair_beq_iff : (p q : A × B) → (pair_beq p q ≡ true) ↔ (p ≡ q)
  unfolding pair_beq
  pair_beq_iff (a, b) (c, d) = ground (arith, e.test_iff a c, f.test_iff b d)

  instance abbrev pub pair_eq : Eq (A × B)
  pair_eq = record { test = pair_beq; test_iff = pair_beq_iff }
