-- ===== src/Sanitize/Tests.antt =====
-- Runs of app/sanitize.py, and the theorems about it at concrete inputs.
use prismux.Prelude.{◌≡◌, refl, text, text_eq, lower, list_beq}
use prismux.Json.{Fields, str, obj, end, field}
use prismux.Sanitize.{is_sensitive, redacted, sanitize}
use prismux.Sanitize.Redacted.{IsClean, sanitize-IsClean}

abbrev payload : Fields
payload =
    field (text "model") (str (text "m"))
      (field (text "extra") (obj (field (text "API_Key") (str (text "sk-1")) end)) end)

nested_secret :
    sanitize (obj payload)
    ≡ obj (
        field
          (text "model")
          (str (text "m"))
          (field (text "extra") (obj (field (text "API_Key") redacted end)) end))
unfolding sanitize is_sensitive lower text list_beq
nested_secret = refl

sanitize-IsClean_example :
    IsClean (sanitize (obj payload))
    × (IsClean (obj payload) → sanitize (obj payload) ≡ obj payload)
sanitize-IsClean_example = sanitize-IsClean (obj payload)
