-- ===== src/Auth/Keys/Tests.antt =====
-- A machine key of app/auth.py, with an underscore in its secret.
use prismux.Prelude.{◌≡◌, refl, some, text, arith}
use prismux.Auth.Keys.{machine_parts, create_machine_key}
use prismux.Auth.Keys.Parts.{machine_parts-create_machine_key}

machine_parts-create_machine_key_example :
    machine_parts (create_machine_key (text "0a1b") (text "abcdefgh_ijklmnop-qrstuvwxyz"))
    ≡ some (text "0a1b", text "abcdefgh_ijklmnop-qrstuvwxyz")
unfolding text
machine_parts-create_machine_key_example =
    machine_parts-create_machine_key (text "0a1b") (text "abcdefgh_ijklmnop-qrstuvwxyz") refl refl
      (omega arith)
