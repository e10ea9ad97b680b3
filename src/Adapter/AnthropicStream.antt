-- ===== src/Adapter/AnthropicStream.antt =====
-- `AnthropicAdapter.translate_stream` of app/multi_provider.py: the lines of Anthropic's events in,
-- the chunks of OpenAI's out. A chunk is the value that the code puts after `data: `; `now` is the
-- time of the chunk, the same one for a stream. `parse` is `json.loads` and `parse_int` is `int` of a text.
-- What is emitted before an exception has gone out: `raised` comes with it.
use prismux.Prelude.{
  ℕ, Bool, true, false, ◌||◌, Option, List, [], ◌∷◌, ◌++◌, length, Str, text, text_eq, ◌==◌, ℤ, pos,
  strip, drop, starts_with, is_blank, if◌then◌else◌,
}
use prismux.Json.{
  Value, Fields, null, bool, int, str, arr, obj, nil, cons, end, field, get_or, get_null, as_int,
}
use prismux.Provider.Estimate.{to_int}
use prismux.Stream.{same_index}
use prismux.Adapter.Checked.{Checked, good, refused, raised, ◌>>=◌, or_raise}
use prismux.Adapter.Payload.{is_text, dict, dict_at}
use prismux.Adapter.Answer.{finish_of, int_sum}

-- `message_id`, `input_tokens` and `tool_indexes`
pub record Translation : Type 0 where
  pub message_id : Value
  pub input_tokens : Value
  pub tool_indexes : List (ℤ × ℕ)

abbrev pub no_translation : Translation
no_translation = record { message_id = str []; input_tokens = null; tool_indexes = [] }

-- `v if isinstance(v, int) else None`
abbrev pub counted : Value → Value
counted (int n) = int n
counted (bool b) = bool b
counted v = null

-- `tool_indexes[index] = n` and `tool_indexes.get(index, 0)`
unfoldable pub set_index : ℤ → ℕ → List (ℤ × ℕ) → List (ℤ × ℕ)
set_index index n [] = (index, n) ∷ []
set_index index n ((j, m) ∷ rest) =
    if same_index j index then (j, n) ∷ rest else (j, m) ∷ set_index index n rest

unfoldable pub index_of : ℤ → List (ℤ × ℕ) → ℕ
index_of index [] = 0
index_of index ((j, m) ∷ rest) = if same_index j index then m else index_of index rest

-- A chunk to be emitted or none, with the state after the event.
abbrev pub Emitted : Type 0
Emitted = Translation × List Value

abbrev pub quiet : Translation → Emitted
quiet t = (t, [])

abbrev pub choice_of : Fields → Value → Value
choice_of delta finish = arr (
    cons
      (obj (
        field (text "index") (int (pos 0))
          (field (text "delta") (obj delta) (field (text "finish_reason") finish end))))
      nil)

abbrev pub call_delta : ℕ → Fields → Fields
call_delta index rest =
    field (text "tool_calls") (arr (cons (obj (field (text "index") (int (pos index)) rest)) nil))
      end

module _ (parse : Str → Option Value) (show : Value → Str) (parse_int : Str → Option ℤ) (now : ℕ)
    (model : Str) where
  abbrev pub chunk : Translation → Fields → Value → Fields → Value
  chunk t delta finish rest = obj (
      field (text "id") t.message_id (
        field (text "object") (str (text "chat.completion.chunk")) (
          field (text "created") (int (pos now)) (
            field (text "model") (str model)
              (field (text "choices") (choice_of delta finish) rest)))))

  abbrev pub on_message_start : Fields → Translation → Checked Emitted
  on_message_start event t = dict_at (text "message") event >>= λ message.
      dict_at (text "usage") message >>= λ usage.
      let input_tokens = counted (get_null (text "input_tokens") usage) in
      let u = record t {
        message_id = get_or (text "id") message (str []);
        input_tokens = input_tokens;
      } in
      good (
        u,
        chunk u (field (text "role") (str (text "assistant")) (field (text "content") (str []) end))
              null (field (text "usage") (obj (field (text "prompt_tokens") input_tokens end)) end)
            ∷ [],
      )

  abbrev pub event_index : Fields → Checked ℤ
  event_index event = or_raise (to_int show parse_int (get_or (text "index") event (int (pos 0))))

  abbrev pub on_tool_use : Fields → Fields → Translation → Checked Emitted
  on_tool_use event block t = event_index event >>= λ index.
      let n = length t.tool_indexes in
      let u = record t { tool_indexes = set_index index n t.tool_indexes } in
      good (
        u,
        chunk u
              (call_delta (index_of index u.tool_indexes) (
                field (text "id") (get_or (text "id") block (str [])) (
                  field (text "type") (str (text "function")) (
                    field (text "function")
                      (obj (
                        field (text "name") (get_or (text "name") block (str []))
                          (field (text "arguments") (str []) end)))
                      end))))
              null end
            ∷ [],
      )

  abbrev pub on_block_start : Fields → Translation → Checked Emitted
  on_block_start event t = dict_at (text "content_block") event >>= λ block.
      if is_text (text "tool_use") (get_null (text "type") block)
      then on_tool_use event block t
      else good (quiet t)

  abbrev pub on_block_delta : Fields → Translation → Checked Emitted
  on_block_delta event t = dict_at (text "delta") event >>= λ delta.
      if is_text (text "text_delta") (get_null (text "type") delta)
      then good (
        t,
        chunk t (field (text "content") (get_or (text "text") delta (str [])) end) null end ∷ [],
      )
      else if is_text (text "thinking_delta") (get_null (text "type") delta)
      then good (
        t,
        chunk t (field (text "reasoning_content") (get_or (text "thinking") delta (str [])) end)
              null end
            ∷ [],
      )
      else if is_text (text "input_json_delta") (get_null (text "type") delta)
      then (event_index event >>= λ index. good (
        t,
        chunk t
              (call_delta (index_of index t.tool_indexes) (
                field (text "function")
                  (obj (field (text "arguments") (get_or (text "partial_json") delta (str [])) end))
                  end))
              null end
            ∷ [],
      ))
      else good (quiet t)

  abbrev pub on_message_delta : Fields → Translation → Checked Emitted
  on_message_delta event t = dict_at (text "delta") event >>= λ delta.
      finish_of (get_null (text "stop_reason") delta) >>= λ finish.
      dict_at (text "usage") event >>= λ usage.
      let output_tokens = get_null (text "output_tokens") usage in
      good (
        t,
        chunk t end finish (
              field (text "usage")
                (obj (
                  field (text "prompt_tokens") t.input_tokens (
                    field (text "completion_tokens") output_tokens (
                      field (text "total_tokens")
                        (int_sum (as_int t.input_tokens) (as_int output_tokens)) end))))
                end)
            ∷ [],
      )

  unfoldable pub on_event : Fields → Translation → Checked Emitted
  on_event event t =
      let event_type = get_null (text "type") event in
      if is_text (text "message_start") event_type
      then on_message_start event t
      else if is_text (text "content_block_start") event_type
      then on_block_start event t
      else if is_text (text "content_block_delta") event_type
      then on_block_delta event t
      else if is_text (text "message_delta") event_type
      then on_message_delta event t
      else if is_text (text "error") event_type
      then good (t, obj (field (text "error") (get_or (text "error") event (obj end)) end) ∷ [])
      else good (quiet t)

  abbrev pub on_data : Str → Translation → Checked Emitted
  on_data data_text t =
      if is_blank data_text || data_text == text "[DONE]"
      then good (quiet t)
      else (or_raise (parse data_text) >>= λ event. dict event >>= λ fs. on_event fs t)

  unfoldable pub on_line : Str → Translation → Checked Emitted
  on_line line t =
      if starts_with line (text "data:") then on_data (strip (drop 5 line)) t else good (quiet t)

  -- The chunks, and whether all lines are read, as opposed to an exception on one of them.
  abbrev pub emit_then : Checked Emitted → (Translation → List Value × Bool) → List Value × Bool
  emit_then (good (t, chunks)) k = let (rest, finished) = k t in (chunks ++ rest, finished)
  emit_then (refused e) k = ([], false)
  emit_then raised k = ([], false)

  unfoldable pub translate_lines : List Str → Translation → List Value × Bool
  translate_lines [] t = ([], true)
  translate_lines (line ∷ lines) t = emit_then (on_line line t) (λ u. translate_lines lines u)

  unfoldable pub translate_stream : List Str → List Value × Bool
  translate_stream lines = translate_lines lines no_translation
