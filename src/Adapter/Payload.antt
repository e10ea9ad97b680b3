-- ===== src/Adapter/Payload.antt =====
-- What Python's operations do with the values of a payload in app/multi_provider.py.
use prismux.Prelude.{Bool, true, false, List, [], ◌∷◌, Str, text, text_eq, ◌==◌, if◌then◌else◌}
use prismux.Json.{
  Value, Fields, null, bool, str, arr, obj, end, field, elements, put, get_or, or_else,
}
use prismux.Adapter.Checked.{Checked, good, raised, ◌>>=◌}

-- `v == "..."`
abbrev pub is_text : Str → Value → Bool
is_text s (str t) = t == s
is_text s v = false

-- A list or a dict cannot be a member of a set or a key.
abbrev pub hashable : Value → Bool
hashable (arr vs) = false
hashable (obj fs) = false
hashable v = true

-- `v.get(...)` needs a dict.
abbrev pub dict : Value → Checked Fields
dict (obj fs) = good fs
dict v = raised

abbrev pub characters : Str → List Value
characters [] = []
characters (c ∷ s) = str (c ∷ []) ∷ characters s

abbrev pub names_of : Fields → List Value
names_of end = []
names_of (field k v fs) = str k ∷ names_of fs

-- `for x in v`
abbrev pub iterate : Value → Checked (List Value)
iterate (arr vs) = good (elements vs)
iterate (str s) = good (characters s)
iterate (obj fs) = good (names_of fs)
iterate v = raised

-- `payload.get(name, {})` where a dict is needed.
abbrev pub dict_at : Str → Fields → Checked Fields
dict_at name fs = dict (get_or name fs (obj end))

module _ (show : Value → Str) where
  -- `str(v)`
  abbrev pub shown : Value → Str
  shown (str s) = s
  shown v = show v

  -- The key that JSON writes for `v` in a dict.
  abbrev pub json_key : Value → Str
  json_key null = text "null"
  json_key (bool b) = if b then text "true" else text "false"
  json_key v = shown v

  abbrev pub put_pair : List Value → Fields → Checked Fields
  put_pair (k ∷ v ∷ []) fs = if hashable k then good (put (json_key k) v fs) else raised
  put_pair vs fs = raised

  unfoldable pub put_pairs : List Value → Fields → Checked Fields
  put_pairs [] fs = good fs
  put_pairs (v ∷ vs) fs = iterate v >>= λ pair. put_pair pair fs >>= λ done. put_pairs vs done

  -- `dict(v or {})`: of a value that is no dict the entries are pairs.
  unfoldable pub dict_or_empty : Value → Checked Fields
  dict_or_empty v = of_value (or_else v (obj end))
    where
      of_value : Value → Checked Fields
      of_value (obj fs) = good fs
      of_value w = iterate w >>= λ vs. put_pairs vs end
