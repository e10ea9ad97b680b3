-- ===== src/Json.antt =====
-- The values that `json.loads` yields, as Python sees them, and what the program asks of them.
use prismux.Prelude.{
  Bool, true, false, not, Option, none, some, List, [], ◌∷◌, Dict, lookup, insert, erase, has_key,
  Str, text_eq, ◌==◌, ◌≡◌, refl, ap, lookup-insert, is_blank, nat_eq, ℤ, pos, negsuc, if◌then◌else◌,
}

-- A float, by what is asked of it: `int(x)`, its truth and its text.
pub record Float : Type 0 where
  pub truncated : ℤ
  pub is_zero : Bool
  pub repr : Str

mutual
  pub data Value : Type 0 where
    null : Value
    bool : Bool → Value
    int : ℤ → Value
    float : Float → Value
    str : Str → Value
    arr : Items → Value
    obj : Fields → Value

  pub data Items : Type 0 where
    nil : Items
    cons : Value → Items → Items

  pub data Fields : Type 0 where
    end : Fields
    field : Str → Value → Fields → Fields

abbrev pub elements : Items → List Value
elements nil = []
elements (cons v vs) = v ∷ elements vs

abbrev pub entries : Fields → Dict Str Value
entries end = []
entries (field k v fs) = (k, v) ∷ entries fs

abbrev pub of_elements : List Value → Items
of_elements [] = nil
of_elements (v ∷ vs) = cons v (of_elements vs)

abbrev pub of_entries : Dict Str Value → Fields
of_entries [] = end
of_entries ((k, v) ∷ d) = field k v (of_entries d)

-- `d.get(k)`, `d[k] = v`, `d.pop(k, None)` and `k in d`
unfoldable pub get : Str → Fields → Option Value
get k fs = lookup k (entries fs)

unfoldable pub put : Str → Value → Fields → Fields
put k v fs = of_entries (insert k v (entries fs))

unfoldable pub drop_key : Str → Fields → Fields
drop_key k fs = of_entries (erase k (entries fs))

unfoldable pub has : Str → Fields → Bool
has k fs = has_key k (entries fs)

abbrev pub value_or : Value → Option Value → Value
value_or v none = v
value_or v (some w) = w

abbrev pub get_or : Str → Fields → Value → Value
get_or k fs v = value_or v (get k fs)

-- `d.get(k)` with Python's `None` for a missing key.
abbrev pub get_null : Str → Fields → Value
get_null k fs = get_or k fs null

abbrev pub is_zero : ℤ → Bool
is_zero (pos n) = nat_eq n 0
is_zero (negsuc n) = false

-- Python's truth of a value.
unfoldable pub truthy : Value → Bool
truthy null = false
truthy (bool b) = b
truthy (int n) = not (is_zero n)
truthy (float x) = not x.is_zero
truthy (str s) = not (is_blank s)
truthy (arr nil) = false
truthy (arr (cons v vs)) = true
truthy (obj end) = false
truthy (obj (field k v fs)) = true

-- `a or b`
abbrev pub or_else : Value → Value → Value
or_else a b = if truthy a then a else b

-- `isinstance(v, int)`, with the number: `True` and `False` are integers in Python.
abbrev pub as_int : Value → Option ℤ
as_int (int n) = some n
as_int (bool true) = some (pos 1)
as_int (bool false) = some (pos 0)
as_int _ = none

-- `isinstance(v, str)`, `isinstance(v, list)` and `isinstance(v, dict)`
abbrev pub as_str : Value → Option Str
as_str (str s) = some s
as_str _ = none

abbrev pub as_list : Value → Option (List Value)
as_list (arr vs) = some (elements vs)
as_list _ = none

abbrev pub as_dict : Value → Option Fields
as_dict (obj fs) = some fs
as_dict _ = none

pub entries-of_entries : (d : Dict Str Value) → entries (of_entries d) ≡ d
entries-of_entries [] = refl
entries-of_entries ((k, v) ∷ d) = ap (◌∷◌ (k, v)) (entries-of_entries d)

pub get-put :
    (j k : Str) (v : Value) (fs : Fields)
    → get j (put k v fs) ≡ (if k == j then some v else get j fs)
unfolding get put
get-put j k v fs =
    rw (entries-of_entries (insert k v (entries fs))) (lookup-insert j k v (entries fs))
