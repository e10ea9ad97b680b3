-- ===== src/Adapter/Answer.antt =====
-- `AnthropicAdapter.normalize_response` of app/multi_provider.py: a whole answer of Anthropic's in
-- the form of OpenAI's. `now` is the time in seconds and `dump` is `json.dumps` with compact
-- separators. `raised` is an exception that leaves the method.
use prismux.Prelude.{
  ℕ, Option, some, List, [], ◌∷◌, ◌++◌, Str, text, text_eq, ◌==◌, ℤ, pos, ◌+ℤ◌, is_blank,
  if◌then◌else◌,
}
use prismux.Json.{
  Value, Fields, null, int, str, arr, obj, nil, cons, end, field, of_elements, get_or, get_null,
  as_int,
}
use prismux.Adapter.Checked.{Checked, good, raised, ◌>>=◌}
use prismux.Adapter.Payload.{is_text, hashable, dict, dict_at, iterate}
use prismux.Adapter.Anthropic.{append_to}

-- `finish_map.get(reason, reason)`
abbrev pub finish_of_text : Str → Value
finish_of_text reason =
    if reason == text "end_turn"
    then str (text "stop")
    else if reason == text "max_tokens"
    then str (text "length")
    else if reason == text "tool_use"
    then str (text "tool_calls")
    else if reason == text "stop_sequence"
    then str (text "stop")
    else str reason

unfoldable pub finish_of : Value → Checked Value
finish_of (str reason) = good (finish_of_text reason)
finish_of v = if hashable v then good v else raised

abbrev pub int_sum : Option ℤ → Option ℤ → Value
int_sum (some m) (some n) = int (m +ℤ n)
int_sum _ _ = null

abbrev pub usage_object : Value → Value → Value
usage_object prompt completion = obj (
    field (text "prompt_tokens") prompt (
      field (text "completion_tokens") completion
        (field (text "total_tokens") (int_sum (as_int prompt) (as_int completion)) end)))

-- `"".join(parts)`, which needs texts.
unfoldable pub join_texts : List Value → Checked Str
join_texts [] = good []
join_texts (str s ∷ vs) = join_texts vs >>= λ rest. good (s ++ rest)
join_texts (v ∷ vs) = raised

abbrev pub or_null : Str → Value
or_null s = if is_blank s then null else str s

pub record Gathered : Type 0 where
  pub text_parts : List Value
  pub tool_calls : List Value

module _ (dump : Value → Str) where
  abbrev pub call_of : Fields → Value
  call_of block = obj (
      field (text "id") (get_or (text "id") block (str [])) (
        field (text "type") (str (text "function")) (
          field (text "function")
            (obj (
              field (text "name") (get_or (text "name") block (str [])) (
                field (text "arguments") (str (dump (get_or (text "input") block (obj end)))) end)))
            end)))

  abbrev pub gather_block : Fields → Gathered → Gathered
  gather_block block g =
      if is_text (text "text") (get_null (text "type") block)
      then record g { text_parts = append_to g.text_parts (get_or (text "text") block (str [])) }
      else if is_text (text "tool_use") (get_null (text "type") block)
      then record g { tool_calls = append_to g.tool_calls (call_of block) }
      else g

  unfoldable pub gather : List Value → Gathered → Checked Gathered
  gather [] g = good g
  gather (v ∷ vs) g = dict v >>= λ block. gather vs (gather_block block g)

  abbrev pub with_tool_calls : List Value → Fields → Fields
  with_tool_calls [] rest = rest
  with_tool_calls (v ∷ vs) rest = field (text "tool_calls") (arr (of_elements (v ∷ vs))) rest

  abbrev pub message_with : Str → List Value → Value
  message_with content calls = obj (
      field (text "role") (str (text "assistant"))
        (field (text "content") (or_null content) (with_tool_calls calls end)))

  abbrev pub choice_with : Value → Value → Value
  choice_with message finish = obj (
      field (text "index") (int (pos 0))
        (field (text "message") message (field (text "finish_reason") finish end)))

  unfoldable pub normalize_response : ℕ → Fields → Str → Checked Fields
  normalize_response now response model =
      iterate (get_or (text "content") response (arr nil)) >>= λ blocks.
      gather blocks record { text_parts = []; tool_calls = [] } >>= λ g.
      dict_at (text "usage") response >>= λ usage. join_texts g.text_parts >>= λ content.
      finish_of (get_null (text "stop_reason") response) >>= λ finish. good (
        field (text "id") (get_or (text "id") response (str [])) (
          field (text "object") (str (text "chat.completion")) (
            field (text "created") (int (pos now)) (
              field (text "model") (str model) (
                field (text "choices")
                  (arr (cons (choice_with (message_with content g.tool_calls) finish) nil))
                  (field (text "usage")
                    (usage_object (get_null (text "input_tokens") usage)
                      (get_null (text "output_tokens") usage))
                    end))))))
