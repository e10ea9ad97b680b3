-- ===== src/Adapter/Upstream.antt =====
-- What an OpenAI-compatible provider is sent (`OpenAICompatibleAdapter.prepare_request` and
-- `apply_reasoning_mode` of app/multi_provider.py).
use prismux.Prelude.{
  ◌≡◌, refl, sym, ◌∙◌, ◌⊎◌, Bool, true, false, not, ◌&&◌, ◌||◌, inl, inr, Option, none, some, List,
  [], ◌∷◌, ◌++◌, Str, text, text_eq, ◌==◌, contains, list_beq, eq_refl, arith, if◌then◌else◌,
}
use prismux.Json.{Value, Fields, bool, str, obj, get, get_or, get_null, put, drop_key, truthy}
use prismux.Provider.Config.{ProviderConfig}
use prismux.Forward.{Outgoing}
use prismux.Adapter.Checked.{Checked, good, refused, ◌>>=◌}
use prismux.Adapter.Payload.{shown, dict_or_empty}
use prismux.Adapter.Reasoning.{
  Control, reasoning_effort, enable_thinking, nvidia_thinking, template_thinking,
  describe_model_capabilities, put_template, put_control, apply_reasoning_mode,
}
use prismux.Adapter.OpenAi.{with_usage, prepare_request}
use prismux.Adapter.Laws.{bind-good, good_injective, get-drop_key, get-put_other, get-put_same}

-- The fields that the reasoning and usage controls write.
abbrev pub control_fields : List Str
control_fields =
    text "reasoning_effort"
    ∷ text "chat_template_kwargs"
    ∷ text "thinking"
    ∷ text "stream_options"
    ∷ []

-- The other fields are those of `fs`.
abbrev pub Controls : Fields → Fields → Type 0
Controls fs gs = (j : Str) → contains control_fields j ≡ false → get j gs ≡ get j fs

mode_is_other : (text "model" == text "_reasoning_mode") ≡ false
unfolding text list_beq
mode_is_other = refl

mode_is_free : contains control_fields (text "_reasoning_mode") ≡ false
unfolding text list_beq
mode_is_free = refl

usage_is_other : (text "model" == text "_include_usage") ≡ false
unfolding text list_beq
usage_is_other = refl

usage_is_free : contains control_fields (text "_include_usage") ≡ false
unfolding text list_beq
usage_is_free = refl

module _ (show : Value → Str) where
  put-Controls :
      (k : Str) (v : Value) (fs : Fields)
      → ((j : Str) → contains control_fields j ≡ false → (k == j) ≡ false)
      → Controls fs (put k v fs)
  put-Controls k v fs h j n = get-put_other j k v fs (h j n)

  put_template-Controls :
      (name : Str) (on : Bool) (fs gs : Fields)
      → put_template show name on fs ≡ good gs
      → Controls fs gs
  put_template-Controls name on fs gs h =
      let (template, h₁, h₂) =
        bind-good (dict_or_empty show (get_null (text "chat_template_kwargs") fs)) _ gs h in
      rw (sym (good_injective _ gs h₂)) (
        put-Controls (text "chat_template_kwargs") (obj (put name (bool on) template)) fs
          (λ j n. ground arith))

  put_control-Controls :
      (on : Bool) (c : Option Control) (fs gs : Fields)
      → put_control show on c fs ≡ good gs
      → Controls fs gs
  put_control-Controls on none fs gs h = rw (good_injective fs gs h) (λ j n. refl)
  put_control-Controls on (some reasoning_effort) fs gs h =
      rw (sym (good_injective _ gs h))
        (put-Controls (text "reasoning_effort") _ fs (λ j n. ground arith))
  put_control-Controls on (some enable_thinking) fs gs h =
      put_template-Controls (text "enable_thinking") on fs gs h
  put_control-Controls on (some template_thinking) fs gs h =
      put_template-Controls (text "thinking") on fs gs h
  put_control-Controls on (some nvidia_thinking) fs gs h =
      rw (sym (good_injective _ gs h)) (put-Controls (text "thinking") _ fs (λ j n. ground arith))

  chosen-Controls :
      (is_auto has_mode on : Bool) (e : Str) (c : Option Control) (fs gs : Fields)
      → (if is_auto then good fs else if not has_mode then refused e else put_control show on c fs)
        ≡ good gs
      → Controls fs gs × ((is_auto ≡ true) ⊎ (has_mode ≡ true))
  chosen-Controls true has_mode on e c fs gs h =
      (rw (good_injective fs gs h) (λ j n. refl), inl refl)
  chosen-Controls false true on e c fs gs h = (put_control-Controls on c fs gs h, inr refl)
  chosen-Controls false false on e c fs gs h =
      absurd (let n : ◌≡◌ {A = Checked Fields} (refused e) (good gs) = h in cc n)

  apply_reasoning_mode-Controls :
      (fs gs : Fields) (config : ProviderConfig) (model mode : Str)
      → apply_reasoning_mode show fs config model mode ≡ good gs
      → Controls fs gs
        × ((mode == text "auto") ≡ true
            ⊎ contains (describe_model_capabilities config model).reasoning_modes mode ≡ true)
  unfolding apply_reasoning_mode
  apply_reasoning_mode-Controls fs gs config model mode h =
      let capability = describe_model_capabilities config model in
      chosen-Controls (mode == text "auto") (contains capability.reasoning_modes mode)
        (mode == text "on") _ capability.reasoning_control fs gs h

  with_usage-Controls :
      (include_usage : Bool) (fs gs : Fields)
      → with_usage show include_usage fs ≡ good gs
      → Controls fs gs
  with_usage-Controls include_usage fs gs h =
      streamed (include_usage && truthy (get_null (text "stream") fs)) h
    where
      streamed :
          (b : Bool)
          → (if b
              then (dict_or_empty show (get_null (text "stream_options") fs) >>= λ stream_options.
                  good (
                    put
                      (text "stream_options")
                      (obj (put (text "include_usage") (bool true) stream_options))
                      fs))
              else good fs)
            ≡ good gs
          → Controls fs gs
      streamed false h = rw (good_injective fs gs h) (λ j n. refl)
      streamed true h =
          let (options, h₁, h₂) =
            bind-good (dict_or_empty show (get_null (text "stream_options") fs)) _ gs h in
          rw (sym (good_injective _ gs h₂))
            (put-Controls (text "stream_options") _ fs (λ j n. ground arith))

  -- What goes upstream: the proxy's own fields are left out, `model` is the upstream model's name,
  -- and each field that is no control goes as the caller sent it.
  pub record IsForwarded (payload : Fields) (model : Str) (body : Fields) : Type 0 where
    pub no_mode : get (text "_reasoning_mode") body ≡ none
    pub no_usage : get (text "_include_usage") body ≡ none
    pub upstream_model : get (text "model") body ≡ some (str model)
    pub as_sent :
        (j : Str)
        → contains
            (text "model" ∷ text "_reasoning_mode" ∷ text "_include_usage" ∷ control_fields)
            j
          ≡ false
        → get j body ≡ get j payload

  dropped :
      (j a b : Str) (fs : Fields)
      → get j (drop_key a (drop_key b fs)) ≡ (if (a == j) || (b == j) then none else get j fs)
  dropped j a b fs = rw (get-drop_key j a (drop_key b fs), get-drop_key j b fs) ground arith

  forwarded :
      (payload fs : Fields) (model : Str)
      → Controls (drop_key (text "_include_usage") (drop_key (text "_reasoning_mode") payload)) fs
      → IsForwarded payload model (put (text "model") (str model) fs)
  forwarded payload fs model h = record {
    no_mode =
        get-put_other (text "_reasoning_mode") (text "model") (str model) fs mode_is_other
        ∙ (h (text "_reasoning_mode") mode_is_free
            ∙ (dropped (text "_reasoning_mode") (text "_include_usage") (text "_reasoning_mode")
                  payload
                ∙ rw (eq_refl (text "_reasoning_mode")) (ground arith)));
    no_usage =
        get-put_other (text "_include_usage") (text "model") (str model) fs usage_is_other
        ∙ (h (text "_include_usage") usage_is_free
            ∙ (dropped (text "_include_usage") (text "_include_usage") (text "_reasoning_mode")
                  payload
                ∙ rw (eq_refl (text "_include_usage")) refl));
    upstream_model = get-put_same (text "model") (str model) fs;
    as_sent = λ j n.
        get-put_other j (text "model") (str model) fs (ground arith)
        ∙ (h j (ground arith)
            ∙ (dropped j (text "_include_usage") (text "_reasoning_mode") payload ∙ ground arith));
  }

  -- For every payload that can be sent, what goes upstream is the caller's body under the upstream
  -- model's name, to the provider's chat endpoint: the proxy's own fields `_reasoning_mode` and
  -- `_include_usage` are left out and every field other than those the controls write is as sent.
  -- A reasoning mode other than `auto` goes only to a model whose capabilities have the mode.
  pub prepare_request-IsForwarded :
      (config : ProviderConfig) (payload : Fields) (model : Str) (o : Outgoing)
      → prepare_request show config payload model ≡ good o
      → (body : Fields) × (o.body ≡ obj body)
        × (o.url ≡ config.base_url ++ text "/chat/completions")
        × IsForwarded payload model body
        × ((shown show (get_or (text "_reasoning_mode") payload (str (text "auto"))) == text "auto")
              ≡ true
            ⊎ contains
                (describe_model_capabilities config model).reasoning_modes
                (shown show (get_or (text "_reasoning_mode") payload (str (text "auto"))))
              ≡ true)
  unfolding prepare_request
  prepare_request-IsForwarded config payload model o h =
      let mode = shown show (get_or (text "_reasoning_mode") payload (str (text "auto"))) in
      let include_usage = truthy (get_or (text "_include_usage") payload (bool false)) in
      let bare = drop_key (text "_include_usage") (drop_key (text "_reasoning_mode") payload) in
      let (controlled, h₁, h₂) =
        bind-good (apply_reasoning_mode show bare config model mode) _ o h in
      let (fs, h₃, h₄) = bind-good (with_usage show include_usage controlled) _ o h₂ in
      let (free, chosen) = apply_reasoning_mode-Controls bare controlled config model mode h₁ in
      let same = with_usage-Controls include_usage controlled fs h₃ in
      rw (sym (good_injective _ o h₄)) (
        put (text "model") (str model) fs,
        refl,
        refl,
        forwarded payload fs model (λ j n. same j n ∙ free j n),
        chosen,
      )
