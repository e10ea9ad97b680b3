-- ===== src/Provider/Estimate.antt =====
-- The token reservations of app/multi_provider.py (`estimate_requested_tokens`,
-- `estimate_embedding_tokens`). `none` is an exception. Python's `str(v)` and `int(s)` of a text are
-- the parameters `show` and `parse_int`.
use prismux.Prelude.{
  ℕ, ◌+◌, ◌/◌, max, Option, none, some, List, [], ◌∷◌, length, Str, text, text_eq, ℤ, pos, ◌+ℤ◌,
  max_ℤ, pos_part,
}
use prismux.Json.{
  Value, Fields, bool, int, float, str, arr, obj, nil, elements, get_or, get_null, or_else, as_int,
}

abbrev pub plus : Option ℕ → Option ℕ → Option ℕ
plus (some m) (some n) = some (m + n)
plus _ _ = none

module _ (show : Value → Str) (parse_int : Str → Option ℤ) where
  abbrev pub shown : Value → Str
  shown (str s) = s
  shown v = show v

  -- The length of a content part's text.
  abbrev pub part_size : Value → ℕ
  part_size (obj part) = length (shown (get_or (text "text") part (str [])))
  part_size v = 0

  unfoldable pub parts_size : List Value → ℕ
  parts_size [] = 0
  parts_size (v ∷ vs) = part_size v + parts_size vs

  abbrev pub content_size : Value → ℕ
  content_size (str s) = length s
  content_size (arr parts) = parts_size (elements parts)
  content_size v = 0

  abbrev pub message_size : Value → ℕ
  message_size (obj message) = content_size (get_or (text "content") message (str []))
  message_size v = 0

  unfoldable pub messages_size : List Value → ℕ
  messages_size [] = 0
  messages_size (v ∷ vs) = message_size v + messages_size vs

  -- `for message in payload.get("messages", [])`: the characters of a text and the keys of a dict
  -- are no dicts, and nothing else can be iterated.
  abbrev pub all_messages_size : Value → Option ℕ
  all_messages_size (arr vs) = some (messages_size (elements vs))
  all_messages_size (str s) = some 0
  all_messages_size (obj fs) = some 0
  all_messages_size v = none

  -- `int(requested or 0)`
  abbrev pub to_int : Value → Option ℤ
  to_int (bool b) = as_int (bool b)
  to_int (int n) = some n
  to_int (float x) = some x.truncated
  to_int (str s) = parse_int s
  to_int v = none

  abbrev pub at_least_one : ℕ → Option ℤ → Option ℕ
  at_least_one size none = none
  at_least_one size (some n) = some (pos_part (max_ℤ (pos 1) (pos ((size + 3) / 4) +ℤ n)))

  abbrev pub requested_of : Fields → Value
  requested_of payload =
      or_else (get_null (text "max_tokens") payload)
        (or_else (get_null (text "max_completion_tokens") payload) (int (pos 0)))

  abbrev pub with_size : Option ℕ → Fields → Option ℕ
  with_size none payload = none
  with_size (some size) payload = at_least_one size (to_int (requested_of payload))

  unfoldable pub estimate_requested_tokens : Fields → Option ℕ
  estimate_requested_tokens payload =
      with_size (all_messages_size (get_or (text "messages") payload (arr nil))) payload

  abbrev pub text_item_size : Value → ℕ
  text_item_size (str s) = length s
  text_item_size v = 0

  unfoldable pub text_items_size : List Value → ℕ
  text_items_size [] = 0
  text_items_size (v ∷ vs) = text_item_size v + text_items_size vs

  abbrev pub input_size : Value → ℕ
  input_size (str s) = length s
  input_size (arr vs) = text_items_size (elements vs)
  input_size v = 0

  unfoldable pub estimate_embedding_tokens : Fields → ℕ
  estimate_embedding_tokens payload =
      max 1 ((input_size (get_or (text "input") payload (str [])) + 3) / 4)
