-- ===== src/Prelude/Text.antt =====
-- Python's `str`, as the list of its code points, with the methods that the program calls.
use Prim.Native.Nat.{ℕ, zero, suc, ◌+◌}
use Prim.Native.Char.{code}
use Prim.Native.String.{String}
use mathlib.Core.Path.{◌≡◌, refl, ◌∙◌}
use mathlib.Core.Bool.{Bool, true, false, ◌&&◌, ◌||◌}
use mathlib.Core.Logic.{inl, inr}
use mathlib.Core.List.{List, [], ◌∷◌, ◌++◌, reverse}
use mathlib.Core.Option.{Option, none, some}
use native.Mathlib.Omega.{arith}
use prismux.Prelude.Tests.{leb, nat_eq, Bool-cases, if◌then◌else◌}
use prismux.Prelude.Lists.{length, drop}
use prismux.Prelude.Equality.{Eq, ℕ_eq, list_beq, list_beq_iff, contains}

abbrev pub Str : Type 0
Str = List ℕ

instance abbrev pub text_eq : Eq Str
text_eq = record { test = list_beq; test_iff = list_beq_iff }

-- The code points of a literal.
unfoldable pub text : String → Str
text String.[] = []
text (String.◌∷◌ c s) = code c ∷ text s

-- `str.lower()` of one character. Of the characters outside ASCII only the Kelvin sign (to `k`) and
-- the dotted capital I (to `i` and a combining dot) come to lower case with an ASCII letter; the
-- others are left alone, which no comparison with an ASCII text can tell.
unfoldable pub lower_char : ℕ → Str
lower_char c =
    if leb b'A' c && leb c b'Z'
    then (c + 32) ∷ []
    else if nat_eq c 8490
    then b'k' ∷ []
    else if nat_eq c 304
    then b'i' ∷ 775 ∷ []
    else c ∷ []

unfoldable pub lower : Str → Str
unfolding lower_char
lower [] = []
lower (c ∷ s) = lower_char c ++ lower s

-- The characters that `str.isspace` accepts, which `str.strip()` removes.
unfoldable pub is_space : ℕ → Bool
is_space c =
    (leb 9 c && leb c 13)
    || (leb 28 c && leb c 32)
    || nat_eq c 133
    || nat_eq c 160
    || nat_eq c 5760
    || (leb 8192 c && leb c 8202)
    || nat_eq c 8232
    || nat_eq c 8233
    || nat_eq c 8239
    || nat_eq c 8287
    || nat_eq c 12288

unfoldable pub drop_while : (ℕ → Bool) → Str → Str
drop_while p [] = []
drop_while p (c ∷ s) = if p c then drop_while p s else c ∷ s

unfoldable pub strip : Str → Str
unfolding drop_while is_space
strip s = reverse (drop_while is_space (reverse (drop_while is_space s)))

-- `s.rstrip(c)` for one character.
unfoldable pub rstrip_char : ℕ → Str → Str
unfolding drop_while
rstrip_char c s = reverse (drop_while (nat_eq c) (reverse s))

-- `s.startswith(p)`
unfoldable pub starts_with : Str → Str → Bool
starts_with s [] = true
starts_with [] (c ∷ p) = false
starts_with (d ∷ s) (c ∷ p) = nat_eq c d && starts_with s p

-- `s.endswith(p)`
unfoldable pub ends_with : Str → Str → Bool
unfolding starts_with
ends_with s p = starts_with (reverse s) (reverse p)

abbrev pub prepend : ℕ → Option (Str × Str) → Option (Str × Str)
prepend c none = none
prepend c (some (a, b)) = some (c ∷ a, b)

-- The part of `s` before the first `p` and the part after it.
unfoldable pub split_once : Str → Str → Option (Str × Str)
unfolding starts_with
split_once p [] = if starts_with [] p then some ([], []) else none
split_once p (c ∷ s) =
    if starts_with (c ∷ s) p then some ([], drop (length p) (c ∷ s)) else prepend c (split_once p s)

-- `p in s`
unfoldable pub has_text : Str → Str → Bool
unfolding split_once
has_text p s = elim (split_once p s) [ none ↦ false | some _ ↦ true ]

-- `s.split(c, n)` for one character, where the last part takes what is left.
unfoldable pub split_max : ℕ → ℕ → Str → List Str
split_max c zero s = s ∷ []
split_max c (suc n) s =
    let rest = λ (b : Str). split_max c n b in
    elim (split_once (c ∷ []) s) [ none ↦ s ∷ [] | some (a, b) ↦ a ∷ rest b ]

-- `s.split(c)`
unfoldable pub add_to_first : ℕ → List Str → List Str
add_to_first c [] = (c ∷ []) ∷ []
add_to_first c (p ∷ ps) = (c ∷ p) ∷ ps

unfoldable pub split : ℕ → Str → List Str
unfolding add_to_first
split c [] = [] ∷ []
split c (d ∷ s) = let rest = split c s in if nat_eq c d then [] ∷ rest else add_to_first d rest

abbrev pub is_blank : Str → Bool
is_blank [] = true
is_blank (c ∷ s) = false

pub starts_with-append : (p s : Str) → starts_with (p ++ s) p ≡ true
unfolding starts_with
starts_with-append [] s = refl
starts_with-append (c ∷ p) s = ground (arith, starts_with-append p s)

head_differs :
    (c : ℕ) (p : Str) (d : ℕ) (s : Str) → nat_eq d c ≡ false → starts_with (d ∷ s) (c ∷ p) ≡ false
unfolding starts_with
head_differs c p d s h = ground arith

pub starts_with-split : (p s : Str) → starts_with s p ≡ true → s ≡ p ++ drop (length p) s
unfolding starts_with
starts_with-split [] s h = refl
starts_with-split (c ∷ p) [] h = cc h
starts_with-split (c ∷ p) (d ∷ s) h = ground (arith, starts_with-split p s)

-- What `split_once` returns puts the text together again.
pub split_once-split :
    (c : ℕ) (p s a b : Str) → split_once (c ∷ p) s ≡ some (a, b) → s ≡ a ++ ((c ∷ p) ++ b)
unfolding split_once starts_with
split_once-split c p [] a b h = cc h
split_once-split c p (d ∷ s) a b h = elim (Bool-cases (starts_with (d ∷ s) (c ∷ p))) [
  | inl e ↦
      let f : some ([], drop (length (c ∷ p)) (d ∷ s)) ≡ some (a, b) = rw e at h in
      starts_with-split (c ∷ p) (d ∷ s) e ∙ cc f
  | inr e ↦
      let f : prepend d (split_once (c ∷ p) s) ≡ some (a, b) = rw e at h in
      later (split_once (c ∷ p) s) (λ x y. split_once-split c p s x y) f
]
  where
    later :
        (o : Option (Str × Str))
        → ((x y : Str) → o ≡ some (x, y) → s ≡ x ++ ((c ∷ p) ++ y))
        → prepend d o ≡ some (a, b)
        → ◌≡◌ {A = Str} (d ∷ s) (a ++ ((c ∷ p) ++ b))
    later none ih f = cc f
    later (some (x, y)) ih f = cc (ih x y refl, f)

pub drop-append : (p s : Str) → drop (length p) (p ++ s) ≡ s
drop-append [] s = refl
drop-append (c ∷ p) s = drop-append p s

-- What stands before a separator and does not hold its first character is split off whole.
pub split_once-append :
    (c : ℕ) (p a b : Str)
    → contains a c ≡ false
    → split_once (c ∷ p) (a ++ ((c ∷ p) ++ b)) ≡ some (a, b)
unfolding split_once
split_once-append c p [] b h = rw (starts_with-append (c ∷ p) b) (rw (drop-append p b))
split_once-append c p (d ∷ a) b h =
    ground (arith, split_once-append c p a b, head_differs c p d (a ++ ((c ∷ p) ++ b)))
