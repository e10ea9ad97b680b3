-- ===== src/Prelude/Trim.antt =====
-- What `str.strip()` leaves: a text that neither begins nor ends with white space.
use Prim.Native.Nat.{ℕ}
use mathlib.Core.Path.{◌≡◌, refl}
use mathlib.Core.Logic.{◌≢◌, inl, inr}
use mathlib.Core.Bool.{false}
use mathlib.Core.List.{[], ◌∷◌, ◌++◌, reverse, reverse-cons, reverse-append, reverse-reverse}
use prismux.Prelude.Tests.{Bool-cases}
use prismux.Prelude.Text.{Str, is_space, drop_while, strip}

-- The first character, if there is one, is not white space.
abbrev pub Starts : Str → Type 0
Starts [] = Unit
Starts (c ∷ s) = is_space c ≡ false

pub record IsTrimmed (s : Str) : Type 0 where
  pub left : Starts s
  pub right : Starts (reverse s)

drop_while-Starts : (s : Str) → Starts (drop_while is_space s)
unfolding drop_while
drop_while-Starts [] = tt
drop_while-Starts (c ∷ s) = elim (Bool-cases (is_space c)) [
  | inl e ↦ rw e (drop_while-Starts s)
  | inr e ↦ rw e e
]

drop_while-same : (s : Str) → Starts s → drop_while is_space s ≡ s
unfolding drop_while
drop_while-same [] h = refl
drop_while-same (c ∷ s) h = rw h

drop_while-append :
    (s : Str) (c : ℕ)
    → is_space c ≡ false
    → (t : Str) × (drop_while is_space (s ++ c ∷ []) ≡ t ++ c ∷ [])
unfolding drop_while
drop_while-append [] c h = ([], rw h)
drop_while-append (d ∷ s) c h = elim (Bool-cases (is_space d)) [
  | inl e ↦ rw e (drop_while-append s c h)
  | inr e ↦ rw e (d ∷ s, refl)
]

-- Trimming the end leaves the beginning.
trim_end-Starts : (s : Str) → Starts s → Starts (reverse (drop_while is_space (reverse s)))
unfolding drop_while
trim_end-Starts [] h = tt
trim_end-Starts (c ∷ s) h =
    let (t, e) = drop_while-append (reverse s) c h in
    rw (reverse-cons c s, e, reverse-append t (c ∷ [])) h

pub strip-IsTrimmed : (s : Str) → IsTrimmed (strip s)
unfolding strip
strip-IsTrimmed s = record {
  left = trim_end-Starts (drop_while is_space s) (drop_while-Starts s);
  right =
      rw (reverse-reverse (drop_while is_space (reverse (drop_while is_space s))))
        (drop_while-Starts (reverse (drop_while is_space s)));
}

pub strip-same : (s : Str) → IsTrimmed s → strip s ≡ s
unfolding strip
strip-same s h =
    rw (drop_while-same s h.left, drop_while-same (reverse s) h.right) (reverse-reverse s)

pub Starts-append : (s t : Str) → s ≢ [] → Starts s → Starts (s ++ t)
Starts-append [] t n h = absurd (n refl)
Starts-append (c ∷ s) t n h = h

pub Starts-append_left : (s t : Str) → Starts (s ++ t) → Starts s
Starts-append_left [] t h = tt
Starts-append_left (c ∷ s) t h = h
