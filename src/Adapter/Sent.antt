-- ===== src/Adapter/Sent.antt =====
-- What Anthropic is sent for the messages of a request (`AnthropicAdapter.prepare_request` of
-- app/multi_provider.py).
use prismux.Prelude.{
  ◌≡◌, refl, sym, ◌∙◌, ap, ◌⊎◌, Bool, true, false, not, ◌||◌, Bool-cases, inl, inr, Option, some,
  List, [], ◌∷◌, ◌++◌, Str, text, text_eq, ◌==◌, contains, All, list_beq, eq_iff, eq_refl, lookup,
  if◌then◌else◌,
}
use prismux.Json.{
  Value, Fields, null, bool, int, float, str, arr, obj, nil, of_elements, get, get_or, get_null,
  has, truthy,
}
use prismux.Provider.Config.{ProviderConfig}
use prismux.Forward.{Outgoing}
use prismux.Adapter.Checked.{Checked, good, refused, raised, ◌>>=◌}
use prismux.Adapter.Payload.{is_text, hashable, iterate, shown}
use prismux.Adapter.Anthropic.{
  append_to, tool_result, unsupported_fields, renamed_fields, copy_fields, with_tools, with_system,
  message_of, Translated, anthropic_content, with_calls, add_message, translate_messages, base_body,
  body_of, unsupported_in, check_fields, check_mode, prepare_request, bad_role,
}
use prismux.Adapter.Laws.{bind-good, good_injective}
use prismux.Adapter.Turns.{
  later_fields, with_system-get, copy_fields-get, with_tools-get, with_choice-get,
}

-- The role that a message is sent with: none for an instruction, which goes into `system`.
abbrev pub sent_roles : Value → List Value
sent_roles (obj message) =
    let role = get_null (text "role") message in
    if is_text (text "system") role || is_text (text "developer") role
    then []
    else if is_text (text "tool") role
    then str (text "user") ∷ []
    else role ∷ []
sent_roles v = []

abbrev pub all_sent_roles : List Value → List Value
all_sent_roles [] = []
all_sent_roles (v ∷ vs) = sent_roles v ++ all_sent_roles vs

abbrev pub role_in : Value → Value
role_in (obj message) = get_null (text "role") message
role_in v = null

abbrev pub roles_in : List Value → List Value
roles_in [] = []
roles_in (v ∷ vs) = role_in v ∷ roles_in vs

abbrev pub has_known_role : Value → Bool
has_known_role (obj message) =
    let role = get_null (text "role") message in
    (is_text (text "system") role || is_text (text "developer") role)
    || (is_text (text "tool") role
        || (is_text (text "user") role || is_text (text "assistant") role))
has_known_role v = false

roles_in-append :
    (vs : List Value) (v : Value) → roles_in (append_to vs v) ≡ append_to (roles_in vs) (role_in v)
roles_in-append [] v = refl
roles_in-append (w ∷ vs) v = ap (λ r. role_in w ∷ r) (roles_in-append vs v)

role_in-message_of :
    (role : Value) (content : List Value) → role_in (message_of role content) ≡ role
unfolding get lookup
role_in-message_of role content = rw (eq_refl (text "role")) refl

append_empty : (xs : List Value) → xs ++ [] ≡ xs
append_empty [] = refl
append_empty (x ∷ xs) = ap (λ r. x ∷ r) (append_empty xs)

append_assoc : (xs ys zs : List Value) → (xs ++ ys) ++ zs ≡ xs ++ (ys ++ zs)
append_assoc [] ys zs = refl
append_assoc (x ∷ xs) ys zs = ap (λ r. x ∷ r) (append_assoc xs ys zs)

module _ (show : Value → Str) (parse : Str → Option Value) where
  turn-roles :
      (t : Translated) (role : Value) (content : List Value)
      → roles_in (append_to t.messages (message_of role content))
        ≡ roles_in t.messages ++ (role ∷ [])
  turn-roles t role content =
      rw (roles_in-append t.messages (message_of role content), role_in-message_of role content)
        refl

  -- The branches of `add_role`, by its tests.
  abbrev choose : Fields → Value → Bool → Bool → Bool → Bool → Translated → Checked Translated
  choose message role can instructs is_tool talks t =
      if not can
      then raised
      else if instructs
      then (anthropic_content show (get_or (text "content") message (str [])) >>= λ blocks.
          good record t { system = t.system ++ blocks })
      else if is_tool
      then good record t {
        messages =
            append_to t.messages
              (message_of (str (text "user")) (tool_result show parse message ∷ []));
      }
      else if talks
      then (anthropic_content show (get_or (text "content") message (str [])) >>= λ blocks.
          with_calls show parse role message blocks >>= λ content.
          good record t { messages = append_to t.messages (message_of role content) })
      else refused (bad_role show parse role)

  choose-roles :
      (message : Fields) (role : Value) (can instructs is_tool talks : Bool) (t u : Translated)
      → choose message role can instructs is_tool talks t ≡ good u
      → (roles_in u.messages
          ≡ roles_in t.messages
            ++ (if instructs then [] else if is_tool then str (text "user") ∷ [] else role ∷ []))
        × ((instructs || (is_tool || talks)) ≡ true)
  choose-roles message role false i tl k t u h =
      absurd (let n : ◌≡◌ {A = Checked Translated} raised (good u) = h in cc n)
  choose-roles message role true true tl k t u h =
      let (blocks, h₁, h₂) =
        bind-good (anthropic_content show (get_or (text "content") message (str []))) _ u h in
      (rw (sym (good_injective _ u h₂)) (sym (append_empty (roles_in t.messages))), refl)
  choose-roles message role true false true k t u h = (
    rw (sym (good_injective _ u h))
        (turn-roles t (str (text "user")) (tool_result show parse message ∷ [])),
    refl,
  )
  choose-roles message role true false false true t u h =
      let (blocks, h₁, h₂) =
        bind-good (anthropic_content show (get_or (text "content") message (str []))) _ u h in
      let (content, h₃, h₄) = bind-good (with_calls show parse role message blocks) _ u h₂ in
      (rw (sym (good_injective _ u h₄)) (turn-roles t role content), refl)
  choose-roles message role true false false false t u h = absurd (
      let n : ◌≡◌ {A = Checked Translated} (refused (bad_role show parse role)) (good u) = h in
      cc n)

  add_message-roles :
      (v : Value) (t u : Translated)
      → add_message show parse v t ≡ good u
      → (roles_in u.messages ≡ roles_in t.messages ++ sent_roles v) × (has_known_role v ≡ true)
  add_message-roles (obj message) t u h =
      let role = get_null (text "role") message in
      choose-roles message role (hashable role)
        (is_text (text "system") role || is_text (text "developer") role)
        (is_text (text "tool") role) (is_text (text "user") role || is_text (text "assistant") role)
        t u h
  add_message-roles null t u h =
      absurd (let n : ◌≡◌ {A = Checked Translated} (refused _) (good u) = h in cc n)
  add_message-roles (bool b) t u h =
      absurd (let n : ◌≡◌ {A = Checked Translated} (refused _) (good u) = h in cc n)
  add_message-roles (int m) t u h =
      absurd (let n : ◌≡◌ {A = Checked Translated} (refused _) (good u) = h in cc n)
  add_message-roles (float x) t u h =
      absurd (let n : ◌≡◌ {A = Checked Translated} (refused _) (good u) = h in cc n)
  add_message-roles (str s) t u h =
      absurd (let n : ◌≡◌ {A = Checked Translated} (refused _) (good u) = h in cc n)
  add_message-roles (arr vs) t u h =
      absurd (let n : ◌≡◌ {A = Checked Translated} (refused _) (good u) = h in cc n)

  translate_messages-roles :
      (vs : List Value) (t u : Translated)
      → translate_messages show parse vs t ≡ good u
      → (roles_in u.messages ≡ roles_in t.messages ++ all_sent_roles vs)
        × All (λ v. has_known_role v ≡ true) vs
  unfolding translate_messages
  translate_messages-roles [] t u h =
      (rw (good_injective t u h) (sym (append_empty (roles_in u.messages))), tt)
  translate_messages-roles (v ∷ vs) t u h =
      let (w, h₁, h₂) = bind-good (add_message show parse v t) _ u h in
      let (first, known) = add_message-roles v t w h₁ in
      let (rest, all_known) = translate_messages-roles vs w u h₂ in
      (
        rest
            ∙ (ap (λ rs. rs ++ all_sent_roles vs) first
                ∙ append_assoc (roles_in t.messages) (sent_roles v) (all_sent_roles vs)),
        (known, all_known),
      )

  -- The body that goes to Anthropic for these messages.
  pub record IsTranslated (payload : Fields) (model : Str) (messages : List Value) (body : Fields)
      : Type 0 where
    pub turns : List Value
    pub sent : get (text "messages") body ≡ some (arr (of_elements turns))
    pub roles : roles_in turns ≡ all_sent_roles messages
    pub known : All (λ v. has_known_role v ≡ true) messages
    pub upstream_model : get (text "model") body ≡ some (str model)
    pub streams : get (text "stream") body ≡ some (bool (truthy (get_null (text "stream") payload)))

  body-get :
      (k : Str) (payload : Fields) (model : Str) (t : Translated) (fs : Fields)
      → contains later_fields k ≡ false
      → body_of show parse payload model t ≡ good fs
      → get k fs ≡ get k (base_body show parse payload model t)
  body-get k payload model t fs late h =
      let base = base_body show parse payload model t in
      let copied = copy_fields renamed_fields payload (with_system t.system base) in
      let (tooled, h₁, h₂) =
        bind-good (with_tools (get_null (text "tools") payload) copied) _ fs h in
      with_choice-get k late (get_null (text "tool_choice") payload) tooled fs h₂
      ∙ (with_tools-get k late (get_null (text "tools") payload) copied tooled h₁
          ∙ (copy_fields-get k late payload (with_system t.system base)
              ∙ with_system-get k late t.system base))

  body-IsTranslated :
      (payload : Fields) (model : Str) (messages : List Value) (t : Translated) (fs : Fields)
      → translate_messages show parse messages (record { system = []; messages = [] }) ≡ good t
      → body_of show parse payload model t ≡ good fs
      → IsTranslated payload model messages fs
  unfolding text list_beq get lookup
  body-IsTranslated payload model messages t fs h e = record {
    turns = t.messages;
    sent = body-get (text "messages") payload model t fs refl e;
    roles = (translate_messages-roles messages _ t h).0;
    known = (translate_messages-roles messages _ t h).1;
    upstream_model = body-get (text "model") payload model t fs refl e;
    streams = body-get (text "stream") payload model t fs refl e;
  }

  checked_mode :
      (b : Bool) (c : Bool)
      → (if b
          then good true
          else refused (text "Anthropic reasoning controls are not enabled for this adapter"))
        ≡ good c
      → b ≡ true
  checked_mode true c h = refl
  checked_mode false c h = absurd (let n : ◌≡◌ {A = Checked Bool} (refused _) (good c) = h in cc n)

  none_unsupported :
      (names : List Str) (c : Bool) → check_fields show parse names ≡ good c → names ≡ []
  none_unsupported [] c h = refl
  none_unsupported (n ∷ ns) c h =
      absurd (let n : ◌≡◌ {A = Checked Bool} (refused _) (good c) = h in cc n)

  none_used :
      (payload : Fields) (m : Str) (ms : List Str) (j : Str)
      → unsupported_in show parse payload (m ∷ ms) ≡ []
      → contains (m ∷ ms) j ≡ true
      → (unsupported_in show parse payload ms ≡ [] → contains ms j ≡ true → has j payload ≡ false)
      → (has m payload ≡ true) ⊎ (has m payload ≡ false)
      → ((m == j) ≡ true) ⊎ ((m == j) ≡ false)
      → has j payload ≡ false
  none_used payload m ms j h n rest (inl used) e = absurd (
      let c : ◌≡◌ {A = List Str} (m ∷ unsupported_in show parse payload ms) [] = rw used at h in
      cc c)
  none_used payload m ms j h n rest (inr free) (inl same) = rw (sym ((eq_iff m j).0 same)) free
  none_used payload m ms j h n rest (inr free) (inr other) = rest (rw free at h) (rw other at n)

  supported :
      (payload : Fields) (names : List Str) (j : Str)
      → unsupported_in show parse payload names ≡ []
      → contains names j ≡ true
      → has j payload ≡ false
  supported payload [] j h n = cc n
  supported payload (m ∷ ms) j h n =
      none_used payload m ms j h n (λ e k. supported payload ms j e k) (Bool-cases (has m payload))
        (Bool-cases (m == j))

  -- For every payload that Anthropic is sent: the caller asked for no reasoning mode and used none of
  -- the fields that Anthropic lacks; the request goes to the messages endpoint under the upstream
  -- model's name with the caller's choice of streaming; every message has a known role; and the
  -- messages that are sent have, in order, the roles of the caller's with the tools' results under
  -- the user's role and the instructions left out.
  pub prepare_request-IsTranslated :
      (config : ProviderConfig) (payload : Fields) (model : Str) (o : Outgoing)
      → prepare_request show parse config payload model ≡ good o
      → (messages : List Value) × (body : Fields) × (iterate
            (get_or (text "messages") payload (arr nil))
          ≡ good messages)
        × (o.body ≡ obj body)
        × (o.url ≡ config.base_url ++ text "/messages")
        × IsTranslated payload model messages body
        × ((shown show (get_or (text "_reasoning_mode") payload (str (text "auto"))) == text "auto")
            ≡ true)
        × ((j : Str) → contains unsupported_fields j ≡ true → has j payload ≡ false)
  unfolding prepare_request
  prepare_request-IsTranslated config payload model o h =
      let (_, h₁, h₂) = bind-good (check_mode show parse payload) _ o h in
      let (_, h₃, h₄) =
        bind-good (check_fields show parse (unsupported_in show parse payload unsupported_fields)) _
          o h₂ in
      let (messages, h₅, h₆) =
        bind-good (iterate (get_or (text "messages") payload (arr nil))) _ o h₄ in
      let (t, h₇, h₈) =
        bind-good (translate_messages show parse messages (record { system = []; messages = [] })) _
          o h₆ in
      let (body, h₉, k) = bind-good (body_of show parse payload model t) _ o h₈ in
      rw (sym (good_injective _ o k)) (
        messages,
        body,
        h₅,
        refl,
        refl,
        body-IsTranslated payload model messages t body h₇ h₉,
        checked_mode _ _ h₁,
        λ j. supported payload unsupported_fields j (none_unsupported _ _ h₃),
      )
