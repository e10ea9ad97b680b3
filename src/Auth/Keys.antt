-- ===== src/Auth/Keys.antt =====
-- Machine keys of app/auth.py: `create_machine_key` and `_machine_parts` of `SecurityService`. The
-- two random texts are arguments.
pub mod Parts
pub mod Tests
use prismux.Prelude.{
  ℕ, Bool, ◌||◌, Option, none, some, List, [], ◌∷◌, ◌++◌, length, ltb, Str, text, starts_with,
  split_max, is_blank, if◌then◌else◌,
}

abbrev pub parts_of : List Str → Option (Str × Str)
parts_of (a ∷ b ∷ prefix ∷ secret ∷ []) =
    if is_blank prefix || ltb (length secret) 24 then none else some (prefix, secret)
parts_of parts = none

-- 95 is the underscore.
unfoldable pub machine_parts : Str → Option (Str × Str)
machine_parts value =
    if starts_with value (text "prismux_live_") || starts_with value (text "rlp_live_")
    then parts_of (split_max 95 3 value)
    else none

-- The key's text, `f"prismux_live_{prefix}_{secrets.token_urlsafe(32)}"`.
unfoldable pub create_machine_key : Str → Str → Str
create_machine_key prefix secret = text "prismux_live_" ++ (prefix ++ (text "_" ++ secret))
