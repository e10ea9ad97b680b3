-- ===== src/Sanitize/Redacted.antt =====
-- What app/sanitize.py leaves in a payload.
use prismux.Prelude.{◌≡◌, refl, ap, sym, Bool, true, false, text_eq, if◌then◌else◌}
use prismux.Json.{
  Value, Items, Fields, null, bool, int, float, str, arr, obj, nil, cons, end, field,
}
use prismux.Sanitize.{is_sensitive, redacted, sanitize, sanitize_items, sanitize_fields}

-- At every depth, a key that names a secret holds the placeholder.
abbrev mutual
  pub IsClean : Value → Type 0
  IsClean null = Unit
  IsClean (bool b) = Unit
  IsClean (int n) = Unit
  IsClean (float x) = Unit
  IsClean (str s) = Unit
  IsClean (arr vs) = AreClean vs
  IsClean (obj fs) = AreCleanFields fs

  pub AreClean : Items → Type 0
  AreClean nil = Unit
  AreClean (cons v vs) = IsClean v × AreClean vs

  pub AreCleanFields : Fields → Type 0
  AreCleanFields end = Unit
  AreCleanFields (field k v fs) =
      (if is_sensitive k then v ≡ redacted else IsClean v) × AreCleanFields fs

entry-IsClean :
    (b : Bool) (v : Value)
    → IsClean (sanitize v)
    → (if b
        then (if b then redacted else sanitize v) ≡ redacted
        else IsClean (if b then redacted else sanitize v))
entry-IsClean true v h = refl
entry-IsClean false v h = h

entry_same :
    (b : Bool) (v : Value)
    → (if b then v ≡ redacted else IsClean v)
    → (IsClean v → sanitize v ≡ v)
    → (if b then redacted else sanitize v) ≡ v
entry_same true v h same = sym h
entry_same false v h same = same h

mutual
  unfolding sanitize

  sanitize-IsClean' : (v : Value) → IsClean (sanitize v)
  sanitize-IsClean' null = tt
  sanitize-IsClean' (bool b) = tt
  sanitize-IsClean' (int n) = tt
  sanitize-IsClean' (float x) = tt
  sanitize-IsClean' (str s) = tt
  sanitize-IsClean' (arr vs) = items_clean vs
  sanitize-IsClean' (obj fs) = fields_clean fs

  items_clean : (vs : Items) → AreClean (sanitize_items vs)
  items_clean nil = tt
  items_clean (cons v vs) = (sanitize-IsClean' v, items_clean vs)

  fields_clean : (fs : Fields) → AreCleanFields (sanitize_fields fs)
  fields_clean end = tt
  fields_clean (field k v fs) =
      (entry-IsClean (is_sensitive k) v (sanitize-IsClean' v), fields_clean fs)

mutual
  unfolding sanitize

  clean_same : (v : Value) → IsClean v → sanitize v ≡ v
  clean_same null h = refl
  clean_same (bool b) h = refl
  clean_same (int n) h = refl
  clean_same (float x) h = refl
  clean_same (str s) h = refl
  clean_same (arr vs) h = ap arr (items_same vs h)
  clean_same (obj fs) h = ap obj (fields_same fs h)

  items_same : (vs : Items) → AreClean vs → sanitize_items vs ≡ vs
  items_same nil h = refl
  items_same (cons v vs) h = cc (clean_same v h.0, items_same vs h.1)

  fields_same : (fs : Fields) → AreCleanFields fs → sanitize_fields fs ≡ fs
  fields_same end h = refl
  fields_same (field k v fs) h =
      cc (entry_same (is_sensitive k) v h.0 (clean_same v), fields_same fs h.1)

-- What `sanitize` returns holds the placeholder at every key, at every depth, that names a secret;
-- and a payload of which that is true already is returned unchanged.
pub sanitize-IsClean : (v : Value) → IsClean (sanitize v) × (IsClean v → sanitize v ≡ v)
sanitize-IsClean v = (sanitize-IsClean' v, clean_same v)
