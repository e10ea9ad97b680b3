-- ===== src/Stream/Payload.antt =====
-- `StreamAccumulator.response_payload` and `extract_test_response_content` of app/main.py. `now` is
-- the time in seconds.
use prismux.Prelude.{
  ℕ, Bool, Option, none, some, List, [], ◌∷◌, ◌++◌, is_empty, Str, text, ℤ, pos, ltb_ℤ, sort_by,
  is_blank, strip, if◌then◌else◌, map,
}
use prismux.Json.{
  Value, Fields, null, int, str, arr, obj, nil, cons, end, field, of_elements, elements, get_null,
  put,
}
use prismux.Stream.{StreamAccumulator, ToolCall}

-- `"".join(parts)`
abbrev pub joined : List Str → Str
joined [] = []
joined (s ∷ ss) = s ++ joined ss

abbrev pub text_or_null : Str → Value
text_or_null s = if is_blank s then null else str s

abbrev pub call_value : ℤ × ToolCall → Value
call_value (index, call) = obj (
    field (text "id") call.id (
      field (text "type") (str (text "function")) (
        field (text "function")
          (obj (
            field (text "name") (str call.name)
              (field (text "arguments") (str call.arguments) end)))
          end)))

abbrev pub by_index : ℤ × ToolCall → ℤ × ToolCall → Bool
by_index (i, x) (j, y) = ltb_ℤ i j

abbrev pub with_reasoning : List Str → Fields → Fields
with_reasoning parts message =
    if is_empty parts then message else put (text "reasoning_content") (str (joined parts)) message

abbrev pub with_tool_calls : List (ℤ × ToolCall) → Fields → Fields
with_tool_calls calls message =
    if is_empty calls
    then message
    else put (text "tool_calls") (arr (of_elements (map call_value (sort_by by_index calls))))
        message

abbrev pub text_value : Option Str → Value
text_value none = null
text_value (some s) = str s

-- `if self.error`: an empty dict is false.
abbrev pub with_error : Option Fields → Fields → Fields
with_error none payload = payload
with_error (some end) payload = payload
with_error (some (field k v fs)) payload = put (text "error") (obj (field k v fs)) payload

abbrev pub message_of : StreamAccumulator → Fields
message_of a = with_tool_calls a.tool_calls (
    with_reasoning a.reasoning_parts (
      field (text "role") (str (text "assistant"))
        (field (text "content") (text_or_null (joined a.content_parts)) end)))

unfoldable pub response_payload : ℕ → Str → Value → StreamAccumulator → Fields
response_payload now model usage a = with_error a.error (
    field (text "id") (str a.response_id) (
      field (text "object") (str (text "chat.completion")) (
        field (text "created") (int (pos now)) (
          field (text "model") (str model) (
            field (text "choices")
              (arr (
                cons
                  (obj (
                    field (text "index") (int (pos 0)) (
                      field (text "message") (obj (message_of a))
                        (field (text "finish_reason") (text_value a.finish_reason) end))))
                  nil))
              (field (text "usage") usage end))))))

-- The content, the reasoning and the reason to finish.
pub record Extract : Type 0 where
  pub content : Option Str
  pub reasoning : Option Str
  pub finish_reason : Option Str

abbrev pub nothing : Extract
nothing = record { content = none; reasoning = none; finish_reason = none }

abbrev pub text_of : Value → Option Str
text_of (str s) = some s
text_of v = none

abbrev pub visible : Value → Option Str
visible (str s) = if is_blank (strip s) then none else some s
visible v = none

abbrev pub extract_message : Value → Option Str → Extract
extract_message (obj message) reason = record {
  content = visible (get_null (text "content") message);
  reasoning = visible (get_null (text "reasoning_content") message);
  finish_reason = reason;
}
extract_message v reason = record { content = none; reasoning = none; finish_reason = reason }

abbrev pub extract_choice : List Value → Extract
extract_choice (obj choice ∷ rest) =
    extract_message (get_null (text "message") choice)
      (text_of (get_null (text "finish_reason") choice))
extract_choice choices = nothing

abbrev pub extract_choices : Value → Extract
extract_choices (arr choices) = extract_choice (elements choices)
extract_choices v = nothing

unfoldable pub extract_test_response_content : Value → Extract
extract_test_response_content (obj payload) = extract_choices (get_null (text "choices") payload)
extract_test_response_content v = nothing
