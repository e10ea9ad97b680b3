-- ===== src/Adapter/Reasoning.antt =====
-- `describe_model_capabilities` and `apply_reasoning_mode` of app/multi_provider.py.
use prismux.Prelude.{
  ℕ, Bool, true, false, ◌||◌, not, Option, none, some, List, [], ◌∷◌, ◌++◌, any, Str, text, text_eq,
  ◌==◌, contains, strip, lower, has_text, if◌then◌else◌,
}
use prismux.Json.{Value, Fields, bool, str, obj, end, field, get_null, put}
use prismux.Provider.Config.{ProviderConfig, AdapterKind, openai_compatible, anthropic}
use prismux.Adapter.Checked.{Checked, good, refused, ◌>>=◌}
use prismux.Adapter.Payload.{dict_or_empty}

pub data Control : Type 0 where
  reasoning_effort enable_thinking nvidia_thinking template_thinking : Control

pub record Capability : Type 0 where
  pub streaming : Bool
  pub stream_usage : Bool
  pub reasoning_modes : List Str
  pub default_max_tokens : ℕ
  pub reasoning_control : Option Control

abbrev pub is_anthropic : AdapterKind → Bool
is_anthropic anthropic = true
is_anthropic openai_compatible = false

abbrev pub usage_presets : List Str
usage_presets =
    text "openai"
    ∷ text "nvidia"
    ∷ text "ollama"
    ∷ text "openrouter"
    ∷ text "groq"
    ∷ text "together"
    ∷ text "mistral"
    ∷ text "xai"
    ∷ []

abbrev pub thinking_families : List Str
thinking_families =
    text "qwen3"
    ∷ text "qwen-3"
    ∷ text "glm4"
    ∷ text "glm-4"
    ∷ text "nemotron-3-ultra"
    ∷ text "nemotron-3-nano"
    ∷ []

abbrev pub base_capability : ProviderConfig → Capability
base_capability config = record {
  streaming = true;
  stream_usage = is_anthropic config.adapter || contains usage_presets config.preset;
  reasoning_modes = text "auto" ∷ [];
  default_max_tokens = 512;
  reasoning_control = none;
}

abbrev pub kimi_control : ProviderConfig → Control
kimi_control config = if config.preset == text "nvidia" then nvidia_thinking else template_thinking

abbrev pub family_capability : ProviderConfig → Str → Capability → Capability
family_capability config normalized base =
    if has_text (text "muse-glimmer") normalized
    then record base { default_max_tokens = 8192 }
    else if is_anthropic config.adapter
    then record base { default_max_tokens = 4096 }
    else if has_text (text "nemotron-3-super") normalized
    then record base {
      reasoning_modes = text "auto" ∷ text "on" ∷ text "off" ∷ [];
      default_max_tokens = 8192;
      reasoning_control = some reasoning_effort;
    }
    else if any (λ name. has_text name normalized) thinking_families
    then record base {
      reasoning_modes = text "auto" ∷ text "on" ∷ text "off" ∷ [];
      default_max_tokens = 4096;
      reasoning_control = some enable_thinking;
    }
    else if has_text (text "kimi-k2") normalized
    then record base {
      reasoning_modes = text "auto" ∷ text "off" ∷ [];
      default_max_tokens = 4096;
      reasoning_control = some (kimi_control config);
    }
    else base

unfoldable pub describe_model_capabilities : ProviderConfig → Str → Capability
describe_model_capabilities config model =
    family_capability config (lower (strip model)) (base_capability config)

module _ (show : Value → Str) where
  abbrev pub put_template : Str → Bool → Fields → Checked Fields
  put_template name on payload =
      dict_or_empty show (get_null (text "chat_template_kwargs") payload) >>= λ template.
      good (put (text "chat_template_kwargs") (obj (put name (bool on) template)) payload)

  abbrev pub put_control : Bool → Option Control → Fields → Checked Fields
  put_control on none payload = good payload
  put_control on (some reasoning_effort) payload =
      good (put (text "reasoning_effort") (str (if on then text "high" else text "none")) payload)
  put_control on (some enable_thinking) payload = put_template (text "enable_thinking") on payload
  put_control on (some template_thinking) payload = put_template (text "thinking") on payload
  put_control on (some nvidia_thinking) payload = good (
      put (text "thinking")
        (obj (field (text "type") (str (if on then text "enabled" else text "disabled")) end))
        payload)

  abbrev pub no_control : Str → Str → Str
  no_control model mode =
      text "Model '"
      ++ (model ++ (text "' does not expose a supported reasoning " ++ (mode ++ text " control")))

  unfoldable pub apply_reasoning_mode : Fields → ProviderConfig → Str → Str → Checked Fields
  apply_reasoning_mode payload config model mode =
      let capability = describe_model_capabilities config model in
      if mode == text "auto"
      then good payload
      else if not (contains capability.reasoning_modes mode)
      then refused (no_control model mode)
      else put_control (mode == text "on") capability.reasoning_control payload
