-- ===== src/Stream.antt =====
-- `StreamAccumulator` of app/main.py: what is gathered from the events of a streamed answer.
-- A chunk is the list of its lines. `parse` is `json.loads` (`none` when it fails), `show` is
-- `str`, and `parse_int` is `int` of a text. `none` is an exception that leaves the method.
pub mod Payload
pub mod Extracted
pub mod SseError
pub mod Reported
pub mod Tests
use prismux.Prelude.{
  ℕ, ◌+◌, ◌/◌, ◌-◌, max, Bool, true, false, not, ◌&&◌, ◌||◌, Option, none, some, List, [], ◌∷◌,
  ◌++◌, length, Dict, lookup, insert, Str, text, text_eq, ◌==◌, ℤ, pos, negsuc, ℕ_eq, ◌+ℤ◌, ◌-ℤ◌,
  max_ℤ, strip, drop, starts_with, is_blank, if◌then◌else◌,
}
use prismux.Json.{
  Value, Fields, null, bool, int, float, str, arr, obj, end, field, elements, get, get_or, get_null,
  or_else, truthy, as_int,
}
use prismux.Provider.Estimate.{to_int, requested_of, estimate_requested_tokens}

pub record ToolCall : Type 0 where
  pub id : Value
  pub name : Str
  pub arguments : Str

pub record StreamAccumulator : Type 0 where
  pub response_id : Str
  pub content_parts : List Str
  pub reasoning_parts : List Str
  pub finish_reason : Option Str
  pub prompt_tokens : Option ℤ
  pub completion_tokens : Option ℤ
  pub total_tokens : Option ℤ
  pub error : Option Fields
  pub tool_calls : List (ℤ × ToolCall)

abbrev pub new : StreamAccumulator
new = record {
  response_id = [];
  content_parts = [];
  reasoning_parts = [];
  finish_reason = none;
  prompt_tokens = none;
  completion_tokens = none;
  total_tokens = none;
  error = none;
  tool_calls = [];
}

-- The accumulator with the two results of `consume`, `done` and `emitted_output`.
pub record Consumed : Type 0 where
  pub state : StreamAccumulator
  pub done : Bool
  pub emitted : Bool

abbrev pub with_state : StreamAccumulator → Consumed → Consumed
with_state a c = record c { state = a }

abbrev pub emit : StreamAccumulator → Consumed → Consumed
emit a c = record c { state = a; emitted = true }

abbrev pub same_index : ℤ → ℤ → Bool
same_index (pos m) (pos n) = m == n
same_index (negsuc m) (negsuc n) = m == n
same_index _ _ = false

abbrev pub new_call : ToolCall
new_call = record { id = str []; name = []; arguments = [] }

-- `setdefault` and the change of what it returns.
unfoldable pub update_call : ℤ → (ToolCall → ToolCall) → List (ℤ × ToolCall) → List (ℤ × ToolCall)
update_call index f [] = (index, f new_call) ∷ []
update_call index f ((i, call) ∷ calls) =
    let rest = update_call index f calls in
    if same_index i index then (i, f call) ∷ calls else (i, call) ∷ rest

abbrev pub keep_int : Value → Option ℤ → Option ℤ
keep_int v old = keep (as_int v)
  where
    keep : Option ℤ → Option ℤ
    keep none = old
    keep (some n) = some n

abbrev pub take_usage : Value → StreamAccumulator → StreamAccumulator
take_usage (obj usage) a = record a {
  prompt_tokens = keep_int (get_null (text "prompt_tokens") usage) a.prompt_tokens;
  completion_tokens = keep_int (get_null (text "completion_tokens") usage) a.completion_tokens;
  total_tokens = keep_int (get_null (text "total_tokens") usage) a.total_tokens;
}
take_usage v a = a

abbrev pub take_error : Value → StreamAccumulator → StreamAccumulator
take_error (obj error) a = record a { error = some error }
take_error v a = a

abbrev pub take_finish : Value → StreamAccumulator → StreamAccumulator
take_finish (str reason) a = record a { finish_reason = some reason }
take_finish v a = a

abbrev pub take_content : Value → Consumed → Consumed
take_content (str s) c =
    if is_blank s
    then c
    else emit (record c.state { content_parts = c.state.content_parts ++ (s ∷ []) }) c
take_content v c = c

abbrev pub take_reasoning : Value → Consumed → Consumed
take_reasoning (str s) c =
    if is_blank s
    then c
    else emit (record c.state { reasoning_parts = c.state.reasoning_parts ++ (s ∷ []) }) c
take_reasoning v c = c

module _ (parse : Str → Option Value) (show : Value → Str) (parse_int : Str → Option ℤ) where
  abbrev pub shown_text : Value → Str
  shown_text (str s) = s
  shown_text v = show v

  -- `str(function.get(...) or "")`
  abbrev pub shown_or_empty : Str → Fields → Str
  shown_or_empty name function = shown_text (or_else (get_null name function) (str []))

  abbrev pub take_function : Value → ToolCall → ToolCall
  take_function (obj function) call = record call {
    name = call.name ++ shown_or_empty (text "name") function;
    arguments = call.arguments ++ shown_or_empty (text "arguments") function;
  }
  take_function v call = call

  abbrev pub take_id : Value → ToolCall → ToolCall
  take_id v call = if truthy v then record call { id = v } else call

  abbrev pub take_call_at : Fields → Option ℤ → Consumed → Option Consumed
  take_call_at call none c = none
  take_call_at call (some index) c = some (
      emit
        (record c.state {
          tool_calls =
              update_call index
                (λ current.
                  take_function (get_null (text "function") call)
                    (take_id (get_null (text "id") call) current))
                c.state.tool_calls;
        })
        c)

  abbrev pub take_call : Value → Consumed → Option Consumed
  take_call (obj call) c =
      take_call_at call (to_int show parse_int (get_or (text "index") call (int (pos 0)))) c
  take_call v c = some c

  abbrev pub then_calls : Option Consumed → (Consumed → Option Consumed) → Option Consumed
  then_calls none k = none
  then_calls (some c) k = k c

  unfoldable pub take_calls : List Value → Consumed → Option Consumed
  take_calls [] c = some c
  take_calls (v ∷ vs) c = then_calls (take_call v c) (λ d. take_calls vs d)

  -- `for call in delta.get("tool_calls") or []`: what is iterated in a text or a dict is no dict.
  abbrev pub take_all_calls : Value → Consumed → Option Consumed
  take_all_calls (arr vs) c = take_calls (elements vs) c
  take_all_calls (int n) c = if truthy (int n) then none else some c
  take_all_calls (float x) c = if truthy (float x) then none else some c
  take_all_calls (bool b) c = if b then none else some c
  take_all_calls v c = some c

  abbrev pub take_delta : Value → Consumed → Option Consumed
  take_delta (obj delta) c = take_all_calls (get_null (text "tool_calls") delta) (
      take_reasoning
        (or_else (get_null (text "reasoning_content") delta) (get_null (text "reasoning") delta))
        (take_content (get_null (text "content") delta) c))
  take_delta v c = some c

  abbrev pub take_choice : List Value → Consumed → Option Consumed
  take_choice (obj choice ∷ rest) c =
      take_delta (get_null (text "delta") choice)
        (with_state (take_finish (get_null (text "finish_reason") choice) c.state) c)
  take_choice choices c = some c

  abbrev pub take_choices : Value → Consumed → Option Consumed
  take_choices (arr choices) c = take_choice (elements choices) c
  take_choices v c = some c

  -- `str(event.get("id") or self.response_id)`
  abbrev pub take_event_id : Fields → StreamAccumulator → StreamAccumulator
  take_event_id event a = record a {
    response_id = shown_text (or_else (get_null (text "id") event) (str a.response_id));
  }

  unfoldable pub take_event : Fields → Consumed → Option Consumed
  take_event event c = take_choices (get_null (text "choices") event) (
      with_state
        (take_usage (get_null (text "usage") event)
          (take_error (get_null (text "error") event) (take_event_id event c.state)))
        c)

  abbrev pub take_value : Option Value → Consumed → Option Consumed
  take_value (some (obj event)) c = take_event event c
  take_value v c = some c

  abbrev pub take_data : Str → Consumed → Option Consumed
  take_data content c =
      if is_blank content
      then some c
      else if content == text "[DONE]"
      then some (record c { done = true })
      else take_value (parse content) c

  unfoldable pub take_line : Str → Consumed → Option Consumed
  take_line line c =
      if starts_with line (text "data:") then take_data (strip (drop 5 line)) c else some c

  unfoldable pub take_lines : List Str → Consumed → Option Consumed
  take_lines [] c = some c
  take_lines (line ∷ lines) c = then_calls (take_line line c) (λ d. take_lines lines d)

  unfoldable pub consume : List Str → StreamAccumulator → Option Consumed
  consume lines a = take_lines lines (record { state = a; done = false; emitted = false })

  pub record Usage : Type 0 where
    pub prompt_tokens : ℤ
    pub completion_tokens : ℤ
    pub total_tokens : ℤ
    pub estimated : Bool

  abbrev pub total_length : List Str → ℕ
  total_length [] = 0
  total_length (s ∷ ss) = length s + total_length ss

  abbrev pub or_sum : Option ℤ → ℤ → ℤ → ℤ
  or_sum none m n = m +ℤ n
  or_sum (some t) m n = t

  -- The generated tokens by the length of the text.
  abbrev pub generated : StreamAccumulator → ℤ
  generated a = pos ((total_length a.content_parts + total_length a.reasoning_parts + 3) / 4)

  abbrev pub with_prompt : ℤ → Bool → StreamAccumulator → Option ℤ → Usage
  with_prompt prompt estimated a (some completion) = record {
    prompt_tokens = prompt;
    completion_tokens = completion;
    total_tokens = or_sum a.total_tokens prompt completion;
    estimated = estimated;
  }
  with_prompt prompt estimated a none = record {
    prompt_tokens = prompt;
    completion_tokens = generated a;
    total_tokens = or_sum a.total_tokens prompt (generated a);
    estimated = true;
  }

  -- `max(1, estimate_requested_tokens(request_payload) - max_requested)`
  abbrev pub estimated_prompt : ℤ → Option ℕ → Option ℤ
  estimated_prompt max_requested none = none
  estimated_prompt max_requested (some n) = some (max_ℤ (pos 1) (pos n -ℤ max_requested))

  abbrev pub with_estimate : StreamAccumulator → Option ℤ → Option Usage
  with_estimate a none = none
  with_estimate a (some prompt) = some (with_prompt prompt true a a.completion_tokens)

  abbrev pub with_requested : Fields → StreamAccumulator → Option ℤ → Option ℤ → Option Usage
  with_requested payload a none p = none
  with_requested payload a (some max_requested) (some prompt) =
      some (with_prompt prompt false a a.completion_tokens)
  with_requested payload a (some max_requested) none =
      with_estimate a
        (estimated_prompt max_requested (estimate_requested_tokens show parse_int payload))

  unfoldable pub usage : Fields → StreamAccumulator → Option Usage
  usage payload a =
      with_requested payload a (to_int show parse_int (requested_of show parse_int payload))
        a.prompt_tokens
