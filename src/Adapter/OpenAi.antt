-- ===== src/Adapter/OpenAi.antt =====
-- `OpenAICompatibleAdapter` of app/multi_provider.py, and what its class inherits.
use prismux.Prelude.{
  Bool, true, false, ◌&&◌, [], ◌∷◌, ◌++◌, Dict, insert, Str, text, text_eq, is_blank, if◌then◌else◌,
}
use prismux.Json.{Value, Fields, bool, str, obj, get_or, get_null, put, drop_key, has, truthy}
use prismux.Provider.Config.{ProviderConfig}
use prismux.Forward.{Outgoing}
use prismux.Adapter.Checked.{Checked, good, refused, ◌>>=◌}
use prismux.Adapter.Payload.{shown, dict_or_empty}
use prismux.Adapter.Reasoning.{apply_reasoning_mode}

-- `{**headers, **more}`
unfoldable pub merge : Dict Str Str → Dict Str Str → Dict Str Str
merge headers [] = headers
merge headers ((name, value) ∷ more) = merge (insert name value headers) more

-- The entry for the key of the provider, where it has one.
abbrev pub key_header : Str → Str → Str → Dict Str Str
key_header name prefix api_key = if is_blank api_key then [] else (name, prefix ++ api_key) ∷ []

abbrev pub json_headers : Dict Str Str
json_headers =
    (text "Content-Type", text "application/json")
    ∷ (text "Accept", text "application/json, text/event-stream")
    ∷ []

unfoldable pub headers : ProviderConfig → Str → Dict Str Str → Dict Str Str
headers config api_key secret_headers =
    merge
      (merge (merge config.headers secret_headers)
        (key_header (text "Authorization") (text "Bearer ") api_key))
      json_headers

module _ (show : Value → Str) where
  abbrev pub with_usage : Bool → Fields → Checked Fields
  with_usage include_usage outgoing =
      if include_usage && truthy (get_null (text "stream") outgoing)
      then (dict_or_empty show (get_null (text "stream_options") outgoing) >>= λ stream_options.
          good (
            put (text "stream_options")
              (obj (put (text "include_usage") (bool true) stream_options)) outgoing))
      else good outgoing

  unfoldable pub prepare_request : ProviderConfig → Fields → Str → Checked Outgoing
  prepare_request config payload model =
      let reasoning_mode =
        shown show (get_or (text "_reasoning_mode") payload (str (text "auto"))) in
      let include_usage = truthy (get_or (text "_include_usage") payload (bool false)) in
      let outgoing = drop_key (text "_include_usage") (drop_key (text "_reasoning_mode") payload) in
      apply_reasoning_mode show outgoing config model reasoning_mode >>= λ controlled.
      with_usage include_usage controlled >>= λ body. good record {
        url = config.base_url ++ text "/chat/completions";
        body = obj (put (text "model") (str model) body);
      }

unfoldable pub prepare_embeddings_request : ProviderConfig → Fields → Str → Checked Outgoing
prepare_embeddings_request config payload model =
    if has (text "input") payload
    then good record {
      url = config.base_url ++ text "/embeddings";
      body = obj (put (text "model") (str model) payload);
    }
    else refused (text "Embeddings requests require an 'input' field")
