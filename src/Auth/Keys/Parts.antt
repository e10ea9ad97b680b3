-- ===== src/Auth/Keys/Parts.antt =====
-- The machine keys of app/auth.py that `create_machine_key` makes are taken apart again.
use prismux.Prelude.{
  ◌≤◌, ◌≡◌, refl, ap, true, false, some, [], ◌∷◌, ◌++◌, length, Str, text, starts_with,
  starts_with-append, split_once, split_once-append, split_max, contains, ℕ_eq, is_blank, arith,
}
use prismux.Auth.Keys.{parts_of, machine_parts, create_machine_key}

parts_of-good :
    (a b prefix secret : Str)
    → is_blank prefix ≡ false
    → 24 ≤ length secret
    → parts_of (a ∷ b ∷ prefix ∷ secret ∷ []) ≡ some (prefix, secret)
parts_of-good a b prefix secret p l = rw p (ground (arith, l))

split_max-last :
    (prefix secret : Str)
    → contains prefix 95 ≡ false
    → split_max 95 1 (prefix ++ (95 ∷ secret)) ≡ prefix ∷ secret ∷ []
unfolding split_max
split_max-last prefix secret h =
    let e : split_once (95 ∷ []) (prefix ++ (95 ∷ secret)) ≡ some (prefix, secret) =
      split_once-append 95 [] prefix secret h in
    rw (split_max, e) refl

split_max-key :
    (prefix secret : Str)
    → contains prefix 95 ≡ false
    → split_max 95 3 (create_machine_key prefix secret)
      ≡ text "prismux" ∷ text "live" ∷ prefix ∷ secret ∷ []
unfolding create_machine_key split_max split_once starts_with text
split_max-key prefix secret h =
    ap (λ parts. text "prismux" ∷ (text "live" ∷ parts)) (split_max-last prefix secret h)

starts_with-create_machine_key :
    (prefix secret : Str)
    → starts_with (create_machine_key prefix secret) (text "prismux_live_") ≡ true
unfolding create_machine_key
starts_with-create_machine_key prefix secret =
    starts_with-append (text "prismux_live_") (prefix ++ (text "_" ++ secret))

-- A key made of a prefix without an underscore, as hexadecimal digits are, and of a secret of at
-- least 24 characters, which may hold underscores, is taken apart into the same two.
pub machine_parts-create_machine_key :
    (prefix secret : Str)
    → contains prefix 95 ≡ false
    → is_blank prefix ≡ false
    → 24 ≤ length secret
    → machine_parts (create_machine_key prefix secret) ≡ some (prefix, secret)
unfolding machine_parts
machine_parts-create_machine_key prefix secret h p l =
    rw (starts_with-create_machine_key prefix secret, split_max-key prefix secret h)
      (parts_of-good (text "prismux") (text "live") prefix secret p l)
