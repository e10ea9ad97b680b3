-- ===== src/Adapter/Tests.antt =====
-- The adapters of app/multi_provider.py at concrete inputs.
use prismux.Prelude.{
  ◌≡◌, refl, ◌⊎◌, true, false, Option, none, some, List, [], ◌∷◌, ◌++◌, Str, text, text_eq, ◌==◌,
  list_beq, ℤ, pos, contains, lookup, insert, erase, has_key, starts_with, strip, drop_while,
  is_space, if◌then◌else◌,
}
use prismux.Json.{
  Value, Fields, bool, int, str, arr, obj, nil, cons, end, field, get, get_or, put, drop_key, has,
  truthy,
}
use prismux.Provider.Capacity.Tests.{config}
use prismux.Adapter.Checked.{good}
use prismux.Adapter.Payload.{shown, dict_or_empty, iterate}
use prismux.Adapter.Reasoning.{describe_model_capabilities, apply_reasoning_mode}
use prismux.Adapter.OpenAi
use prismux.Adapter.Anthropic
use prismux.Adapter.Anthropic.{
  message_of, text_block, unsupported_fields, translate_messages, anthropic_content, copy_fields,
}
use prismux.Adapter.Upstream.{IsForwarded, prepare_request-IsForwarded}
use prismux.Adapter.Sent.{IsTranslated, prepare_request-IsTranslated}
use prismux.Adapter.StreamText.{take_chunks}
use prismux.Adapter.Streamed.{lines_text, translate_stream-Adds}
use prismux.Adapter.AnthropicStream.{translate_stream, translate_lines, on_line, on_event}
use prismux.Stream.{Consumed, new}

abbrev show : Value → Str
show v = []

abbrev user_message : Value
user_message =
    obj (field (text "role") (str (text "user")) (field (text "content") (str (text "hi")) end))

abbrev system_message : Value
system_message =
    obj (
      field (text "role") (str (text "system"))
        (field (text "content") (str (text "be brief")) end))

abbrev payload : Fields
payload = field (text "model") (str (text "fast")) (
    field (text "messages") (arr (cons system_message (cons user_message nil)))
      (field (text "_include_usage") (bool true) (field (text "stream") (bool true) end)))

abbrev openai_sent : Fields
openai_sent = field (text "model") (str (text "m")) (
    field (text "messages") (arr (cons system_message (cons user_message nil))) (
      field (text "stream") (bool true)
        (field (text "stream_options") (obj (field (text "include_usage") (bool true) end)) end)))

openai_goes :
    OpenAi.prepare_request show config payload (text "m")
    ≡ good (record { url = config.base_url ++ text "/chat/completions"; body = obj openai_sent })
unfolding OpenAi.prepare_request apply_reasoning_mode dict_or_empty text list_beq get put drop_key
    lookup insert erase truthy
openai_goes = refl

prepare_request-IsForwarded_example :
    (body : Fields) × (obj openai_sent ≡ obj body)
    × (config.base_url ++ text "/chat/completions" ≡ config.base_url ++ text "/chat/completions")
    × IsForwarded show payload (text "m") body
    × ((shown show (get_or (text "_reasoning_mode") payload (str (text "auto"))) == text "auto")
          ≡ true
        ⊎ contains
            (describe_model_capabilities config (text "m")).reasoning_modes
            (shown show (get_or (text "_reasoning_mode") payload (str (text "auto"))))
          ≡ true)
prepare_request-IsForwarded_example =
    prepare_request-IsForwarded show config payload (text "m")
      (record { url = config.base_url ++ text "/chat/completions"; body = obj openai_sent })
      openai_goes

abbrev anthropic_sent : Fields
anthropic_sent = field (text "model") (str (text "m")) (
    field (text "messages")
      (arr (cons (message_of (str (text "user")) (text_block (str (text "hi")) ∷ [])) nil))
      (field (text "max_tokens") (int (pos 1024)) (
        field (text "stream") (bool true)
          (field (text "system") (arr (cons (text_block (str (text "be brief"))) nil)) end))))

abbrev parse : Str → Option Value
parse s = none

anthropic_goes :
    Anthropic.prepare_request show parse config payload (text "m")
    ≡ good (record { url = config.base_url ++ text "/messages"; body = obj anthropic_sent })
unfolding Anthropic.prepare_request translate_messages anthropic_content copy_fields text list_beq
    get put has lookup insert has_key truthy
anthropic_goes = refl

prepare_request-IsTranslated_example :
    (messages : List Value) × (body : Fields) × (iterate
        (get_or (text "messages") payload (arr nil))
      ≡ good messages)
    × (obj anthropic_sent ≡ obj body)
    × (config.base_url ++ text "/messages" ≡ config.base_url ++ text "/messages")
    × IsTranslated show parse payload (text "m") messages body
    × ((shown show (get_or (text "_reasoning_mode") payload (str (text "auto"))) == text "auto")
        ≡ true)
    × ((j : Str) → contains unsupported_fields j ≡ true → has j payload ≡ false)
prepare_request-IsTranslated_example =
    prepare_request-IsTranslated show parse config payload (text "m")
      (record { url = config.base_url ++ text "/messages"; body = obj anthropic_sent })
      anthropic_goes

-- A stream of two events: `json.loads` by the line that stands for each.
abbrev start_event : Value
start_event = obj (
    field (text "type") (str (text "message_start")) (
      field (text "message")
        (obj (
          field (text "id") (str (text "msg"))
            (field (text "usage") (obj (field (text "input_tokens") (int (pos 3)) end)) end)))
        end))

abbrev text_event : Value
text_event = obj (
    field (text "type") (str (text "content_block_delta")) (
      field (text "delta")
        (obj (
          field (text "type") (str (text "text_delta"))
            (field (text "text") (str (text "hi")) end)))
        end))

abbrev parse_events : Str → Option Value
parse_events s =
    if s == text "1" then some start_event else if s == text "2" then some text_event else none

abbrev no_int : Str → Option ℤ
no_int s = none

abbrev lines : List Str
lines = text "event: message_start" ∷ text "data: 1" ∷ text "data: 2" ∷ text "data: [DONE]" ∷ []

lines_finish : (translate_stream parse_events show no_int 7 (text "m") lines).1 ≡ true
unfolding translate_stream translate_lines on_line on_event text list_beq get lookup starts_with
    strip drop_while is_space
lines_finish = refl

translate_stream-Adds_example :
    (d : Consumed) × (take_chunks parse_events show no_int 7
        (text "m")
        (translate_stream parse_events show no_int 7 (text "m") lines).0
        (record { state = new; done = false; emitted = false })
      ≡ some d)
    × (d.state.content_parts ≡ [] ++ lines_text parse_events show no_int 7 (text "m") lines)
translate_stream-Adds_example =
    translate_stream-Adds parse_events show no_int 7 (text "m") lines new lines_finish

lines_have_text : lines_text parse_events show no_int 7 (text "m") lines ≡ text "hi" ∷ []
unfolding text list_beq get lookup starts_with strip drop_while is_space
lines_have_text = refl
