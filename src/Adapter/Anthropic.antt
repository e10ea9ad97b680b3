-- ===== src/Adapter/Anthropic.antt =====
-- `AnthropicAdapter` of app/multi_provider.py: the translation of requests and of whole answers.
-- `parse` is `json.loads`, `none` where it raises a `JSONDecodeError`, and `dump` is `json.dumps`
-- with its compact separators; `show` is `str`.
use prismux.Prelude.{
  Bool, true, ◌&&◌, ◌||◌, not, Option, none, some, List, [], ◌∷◌, ◌++◌, Dict, Str, text, text_eq,
  ◌==◌, pos, drop, starts_with, has_text, split_once, if◌then◌else◌,
}
use prismux.Json.{
  Value, Fields, bool, int, str, arr, obj, nil, end, field, elements, of_elements, get, get_or,
  get_null, put, has, truthy, or_else,
}
use prismux.Provider.Config.{ProviderConfig}
use prismux.Forward.{Outgoing}
use prismux.Adapter.Checked.{Checked, good, refused, raised, ◌>>=◌}
use prismux.Adapter.Payload.{is_text, hashable, dict_at, iterate, shown}
use prismux.Adapter.OpenAi.{merge, key_header, json_headers}

abbrev pub unsupported_fields : List Str
unsupported_fields =
    text "audio"
    ∷ text "modalities"
    ∷ text "prediction"
    ∷ text "response_format"
    ∷ text "service_tier"
    ∷ []

unfoldable pub headers : ProviderConfig → Str → Dict Str Str → Dict Str Str
headers config api_key secret_headers =
    merge (merge (merge config.headers secret_headers) (key_header (text "x-api-key") [] api_key))
      ((text "anthropic-version", config.anthropic_version) ∷ json_headers)

abbrev pub text_block : Value → Value
text_block v = obj (field (text "type") (str (text "text")) (field (text "text") v end))

abbrev pub image_block : Fields → Value
image_block source =
    obj (field (text "type") (str (text "image")) (field (text "source") (obj source) end))

abbrev pub base64_source : Str → Str → Fields
base64_source media_type data_text =
    field (text "type") (str (text "base64"))
      (field (text "media_type") (str media_type) (field (text "data") (str data_text) end))

abbrev pub url_source : Str → Fields
url_source url = field (text "type") (str (text "url")) (field (text "url") (str url) end)

-- `s.split(p)[0]`
abbrev pub before : Str → Str → Str
before p s = elim (split_once p s) [ none ↦ s | some (a, b) ↦ a ]

-- `header, data = url.split(",", 1)`
abbrev pub base64_block : Option (Str × Str) → Checked Value
base64_block none = raised
base64_block (some (header, data_text)) =
    good (image_block (base64_source (before (text ";") (drop 5 header)) data_text))

abbrev pub image_of_url : Str → Checked Value
image_of_url url =
    if starts_with url (text "data:") && has_text (text ";base64,") url
    then base64_block (split_once (text ",") url)
    else if starts_with url (text "http://") || starts_with url (text "https://")
    then good (image_block (url_source url))
    else refused (text "Anthropic image content requires an HTTP URL or base64 data URL")

abbrev pub image_of_value : Value → Checked Value
image_of_value (str url) = image_of_url url
image_of_value v = raised

abbrev pub append_to {ℓ} : {A : Type ℓ} → List A → A → List A
append_to xs x = xs ++ (x ∷ [])

-- `payload.get("stop")` under Anthropic's name, the others under their own.
abbrev pub renamed_fields : List (Str × Str)
renamed_fields =
    (text "temperature", text "temperature")
    ∷ (text "top_p", text "top_p")
    ∷ (text "top_k", text "top_k")
    ∷ (text "stop_sequences", text "stop")
    ∷ []

abbrev pub put_some : Str → Option Value → Fields → Fields
put_some name none fs = fs
put_some name (some v) fs = put name v fs

unfoldable pub copy_fields : List (Str × Str) → Fields → Fields → Fields
copy_fields [] payload outgoing = outgoing
copy_fields ((name, source) ∷ names) payload outgoing =
    copy_fields names payload (put_some name (get source payload) outgoing)

abbrev pub empty_schema : Value
empty_schema =
    obj (field (text "type") (str (text "object")) (field (text "properties") (obj end) end))

-- One tool; those of another kind are left out.
abbrev pub add_tool : Value → List Value → Checked (List Value)
add_tool (obj tool) tools =
    if is_text (text "function") (get_or (text "type") tool (str (text "function")))
    then (dict_at (text "function") tool >>= λ function. good (
        append_to tools (
          obj (
            field (text "name") (get_or (text "name") function (str [])) (
              field (text "description") (get_or (text "description") function (str [])) (
                field (text "input_schema") (get_or (text "parameters") function empty_schema)
                  end))))))
    else good tools
add_tool v tools = good tools

unfoldable pub add_tools : List Value → List Value → Checked (List Value)
add_tools [] tools = good tools
add_tools (v ∷ vs) tools = add_tool v tools >>= λ more. add_tools vs more

abbrev pub with_tools : Value → Fields → Checked Fields
with_tools tools outgoing =
    if truthy tools
    then (iterate tools >>= λ vs. add_tools vs [] >>= λ translated.
        good (put (text "tools") (arr (of_elements translated)) outgoing))
    else good outgoing

abbrev pub put_choice : Str → Fields → Fields → Fields
put_choice kind rest outgoing =
    put (text "tool_choice") (obj (field (text "type") (str kind) rest)) outgoing

abbrev pub with_named_choice : Value → Fields → Fields
with_named_choice name outgoing =
    if truthy name
    then put_choice (text "tool") (field (text "name") name end) outgoing
    else outgoing

abbrev pub with_choice : Value → Fields → Checked Fields
with_choice (str choice) outgoing = good (
    if choice == text "required"
    then put_choice (text "any") end outgoing
    else if choice == text "auto"
    then put_choice (text "auto") end outgoing
    else outgoing)
with_choice (obj choice) outgoing = dict_at (text "function") choice >>= λ function.
    good (with_named_choice (get_null (text "name") function) outgoing)
with_choice v outgoing = good outgoing

abbrev pub with_system : List Value → Fields → Fields
with_system [] outgoing = outgoing
with_system (v ∷ vs) outgoing = put (text "system") (arr (of_elements (v ∷ vs))) outgoing

abbrev pub message_of : Value → List Value → Value
message_of role content =
    obj (field (text "role") role (field (text "content") (arr (of_elements content)) end))

-- `system` and `messages`
pub record Translated : Type 0 where
  pub system : List Value
  pub messages : List Value

module _ (show : Value → Str) where
  abbrev pub bad_part : Value → Str
  bad_part part_type =
      text "Anthropic does not support content part type '"
      ++ (shown show part_type ++ text "' through this proxy")

  abbrev pub image_of_part : Value → Checked Value
  image_of_part (obj image) = image_of_value (get_or (text "url") image (str []))
  image_of_part v = image_of_url (shown show v)

  abbrev pub block_of_part : Fields → Value → Checked Value
  block_of_part part part_type =
      if not (hashable part_type)
      then raised
      else if is_text (text "text") part_type || is_text (text "input_text") part_type
      then good (text_block (get_or (text "text") part (str [])))
      else if is_text (text "image_url") part_type
      then image_of_part (get_or (text "image_url") part (obj end))
      else refused (bad_part part_type)

  unfoldable pub blocks_of : List Value → List Value → Checked (List Value)
  blocks_of [] blocks = good blocks
  blocks_of (obj part ∷ parts) blocks =
      block_of_part part (get_null (text "type") part) >>= λ block.
      blocks_of parts (append_to blocks block)
  blocks_of (v ∷ parts) blocks = blocks_of parts blocks

  unfoldable pub anthropic_content : Value → Checked (List Value)
  unfolding blocks_of
  anthropic_content (str s) = good (text_block (str s) ∷ [])
  anthropic_content (arr vs) = blocks_of (elements vs) []
  anthropic_content v = good (text_block (str (shown show v)) ∷ [])

  module _ (parse : Str → Option Value) where
    abbrev pub parsed : Option Value → Checked Value
    parsed none = refused (text "Tool call arguments must contain valid JSON")
    parsed (some v) = good v

    -- `json.loads` of the arguments.
    abbrev pub arguments_of : Value → Checked Value
    arguments_of (str s) = parsed (parse s)
    arguments_of v = raised

    abbrev pub tool_use_of : Value → Checked Value
    tool_use_of (obj call) = dict_at (text "function") call >>= λ function.
        arguments_of (get_or (text "arguments") function (str (text "{}"))) >>= λ arguments. good (
          obj (
            field (text "type") (str (text "tool_use")) (
              field (text "id") (get_or (text "id") call (str [])) (
                field (text "name") (get_or (text "name") function (str []))
                  (field (text "input") arguments end)))))
    tool_use_of v = raised

    unfoldable pub add_calls : List Value → List Value → Checked (List Value)
    add_calls [] content = good content
    add_calls (call ∷ calls) content =
        tool_use_of call >>= λ block. add_calls calls (append_to content block)

    abbrev pub tool_result : Fields → Value
    tool_result message = obj (
        field (text "type") (str (text "tool_result")) (
          field (text "tool_use_id") (get_or (text "tool_call_id") message (str []))
            (field (text "content") (get_or (text "content") message (str [])) end)))

    abbrev pub bad_role : Value → Str
    bad_role role =
        text "Anthropic adapter does not support message role '" ++ (shown show role ++ text "'")

    abbrev pub with_calls : Value → Fields → List Value → Checked (List Value)
    with_calls role message content =
        if is_text (text "assistant") role
        then (iterate (or_else (get_or (text "tool_calls") message (arr nil)) (arr nil))
            >>= λ calls. add_calls calls content)
        else good content

    -- The body of the loop on the messages, for a message with this role.
    abbrev pub add_role : Fields → Value → Translated → Checked Translated
    add_role message role t =
        if not (hashable role)
        then raised
        else if is_text (text "system") role || is_text (text "developer") role
        then (anthropic_content (get_or (text "content") message (str [])) >>= λ blocks.
            good record t { system = t.system ++ blocks })
        else if is_text (text "tool") role
        then good record t {
          messages =
              append_to t.messages (message_of (str (text "user")) (tool_result message ∷ []));
        }
        else if is_text (text "user") role || is_text (text "assistant") role
        then (anthropic_content (get_or (text "content") message (str [])) >>= λ blocks.
            with_calls role message blocks >>= λ content.
            good record t { messages = append_to t.messages (message_of role content) })
        else refused (bad_role role)

    abbrev pub add_message : Value → Translated → Checked Translated
    add_message (obj message) t = add_role message (get_null (text "role") message) t
    add_message v t = refused (text "Every message must be an object")

    unfoldable pub translate_messages : List Value → Translated → Checked Translated
    translate_messages [] t = good t
    translate_messages (v ∷ vs) t = add_message v t >>= λ u. translate_messages vs u

    abbrev pub max_tokens_of : Fields → Value
    max_tokens_of payload =
        or_else (get_null (text "max_tokens") payload)
          (or_else (get_null (text "max_completion_tokens") payload) (int (pos 1024)))

    abbrev pub base_body : Fields → Str → Translated → Fields
    base_body payload model t = field (text "model") (str model) (
        field (text "messages") (arr (of_elements t.messages)) (
          field (text "max_tokens") (max_tokens_of payload)
            (field (text "stream") (bool (truthy (get_null (text "stream") payload))) end)))

    abbrev pub body_of : Fields → Str → Translated → Checked Fields
    body_of payload model t =
        with_tools (get_null (text "tools") payload)
          (copy_fields renamed_fields payload (with_system t.system (base_body payload model t)))
        >>= λ with_all_tools. with_choice (get_null (text "tool_choice") payload) with_all_tools

    -- `", ".join(unsupported)`
    unfoldable pub join : List Str → Str
    join [] = []
    join (s ∷ []) = s
    join (s ∷ t ∷ rest) = s ++ (text ", " ++ join (t ∷ rest))

    abbrev pub unsupported_in : Fields → List Str → List Str
    unsupported_in payload [] = []
    unsupported_in payload (name ∷ names) =
        if has name payload
        then name ∷ unsupported_in payload names
        else unsupported_in payload names

    abbrev pub check_fields : List Str → Checked Bool
    check_fields [] = good true
    check_fields (name ∷ names) =
        refused (text "Anthropic adapter does not support: " ++ join (name ∷ names))

    abbrev pub check_mode : Fields → Checked Bool
    check_mode payload =
        if shown show (get_or (text "_reasoning_mode") payload (str (text "auto"))) == text "auto"
        then good true
        else refused (text "Anthropic reasoning controls are not enabled for this adapter")

    unfoldable pub prepare_request : ProviderConfig → Fields → Str → Checked Outgoing
    prepare_request config payload model = check_mode payload >>= λ _.
        check_fields (unsupported_in payload unsupported_fields) >>= λ _.
        iterate (get_or (text "messages") payload (arr nil)) >>= λ messages.
        translate_messages messages record { system = []; messages = [] } >>= λ t.
        body_of payload model t >>= λ body.
        good record { url = config.base_url ++ text "/messages"; body = obj body }
