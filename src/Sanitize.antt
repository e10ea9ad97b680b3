-- ===== src/Sanitize.antt =====
-- app/sanitize.py: the redaction of secrets in payloads, before they are stored or shown.
pub mod Redacted
pub mod Tests
use prismux.Prelude.{Bool, List, [], ◌∷◌, Str, text, text_eq, lower, contains, if◌then◌else◌}
use prismux.Json.{
  Value, Items, Fields, null, bool, int, float, str, arr, obj, nil, cons, end, field,
}

abbrev pub sensitive_keys : List Str
sensitive_keys =
    text "api_key"
    ∷ text "apikey"
    ∷ text "authorization"
    ∷ text "auth_token"
    ∷ text "access_token"
    ∷ text "bearer"
    ∷ []

unfoldable pub is_sensitive : Str → Bool
is_sensitive k = contains sensitive_keys (lower k)

abbrev pub redacted : Value
redacted = str (text "[REDACTED]")

unfoldable mutual
  pub sanitize : Value → Value
  sanitize null = null
  sanitize (bool b) = bool b
  sanitize (int n) = int n
  sanitize (float x) = float x
  sanitize (str s) = str s
  sanitize (arr vs) = arr (sanitize_items vs)
  sanitize (obj fs) = obj (sanitize_fields fs)

  pub sanitize_items : Items → Items
  sanitize_items nil = nil
  sanitize_items (cons v vs) = cons (sanitize v) (sanitize_items vs)

  pub sanitize_fields : Fields → Fields
  sanitize_fields end = end
  sanitize_fields (field k v fs) =
      field k (if is_sensitive k then redacted else sanitize v) (sanitize_fields fs)
