-- ===== src/Adapter/StreamText.antt =====
-- The text of a translated stream: `AnthropicAdapter.translate_stream` of app/multi_provider.py and
-- `StreamAccumulator.consume` of app/main.py, which reads what it emits.
use prismux.Prelude.{
  ◌≡◌, refl, sym, ◌∙◌, ap, Bool, true, false, Option, some, List, [], ◌∷◌, ◌++◌, Str, text, text_eq,
  list_beq, ℕ, ℤ, lookup, is_blank, if◌then◌else◌,
}
use prismux.Json.{
  Value, Fields, null, bool, int, float, str, arr, obj, end, get, get_or, get_null, or_else,
}
use prismux.Stream.{
  Consumed, StreamAccumulator, take_content, take_reasoning, take_finish, take_usage, take_error,
  take_delta, take_calls, emit, take_event, take_value, then_calls,
}
use prismux.Adapter.Payload.{is_text}
use prismux.Adapter.AnthropicStream.{Translation, call_delta, chunk}

-- The text that a value adds to an answer.
abbrev pub text_part : Value → List Str
text_part (str s) = if is_blank s then [] else s ∷ []
text_part v = []

abbrev pub delta_text : Value → List Str
delta_text (obj delta) =
    if is_text (text "text_delta") (get_null (text "type") delta)
    then text_part (get_or (text "text") delta (str []))
    else []
delta_text v = []

-- The text in an event of Anthropic's.
abbrev pub event_text : Value → List Str
event_text (obj event) =
    if is_text (text "content_block_delta") (get_null (text "type") event)
    then delta_text (get_or (text "delta") event (obj end))
    else []
event_text v = []

pub append_none : (xs : List Str) → xs ++ [] ≡ xs
append_none [] = refl
append_none (x ∷ xs) = ap (λ r. x ∷ r) (append_none xs)

module _ (parse : Str → Option Value) (show : Value → Str) (parse_int : Str → Option ℤ) (now : ℕ)
    (model : Str) where
  -- The accumulator on the chunks in turn.
  unfoldable pub take_chunks : List Value → Consumed → Option Consumed
  take_chunks [] c = some c
  take_chunks (v ∷ vs) c =
      then_calls parse show parse_int (take_value parse show parse_int (some v) c)
        (λ d. take_chunks vs d)

  -- The chunks are read without an exception and add these texts to the answer.
  pub record Adds (c : Consumed) (chunks : List Value) (texts : List Str) : Type 0 where
    pub after : Consumed
    pub reads : take_chunks chunks c ≡ some after
    pub content : after.state.content_parts ≡ c.state.content_parts ++ texts

  content_value :
      (v : Value) (c : Consumed)
      → (take_content v c).state.content_parts ≡ c.state.content_parts ++ text_part v
  content_value (str s) c = of_test (is_blank s)
    where
      of_test :
          (b : Bool)
          → (if b
              then c
              else emit
                  (record c.state { content_parts = c.state.content_parts ++ (s ∷ []) })
                  c).state.content_parts
            ≡ c.state.content_parts ++ (if b then [] else s ∷ [])
      of_test true = sym (append_none c.state.content_parts)
      of_test false = refl
  content_value null c = sym (append_none c.state.content_parts)
  content_value (bool b) c = sym (append_none c.state.content_parts)
  content_value (int n) c = sym (append_none c.state.content_parts)
  content_value (float x) c = sym (append_none c.state.content_parts)
  content_value (arr vs) c = sym (append_none c.state.content_parts)
  content_value (obj fs) c = sym (append_none c.state.content_parts)

  reasoning_value :
      (v : Value) (c : Consumed) → (take_reasoning v c).state.content_parts ≡ c.state.content_parts
  reasoning_value (str s) c = of_test (is_blank s)
    where
      of_test :
          (b : Bool)
          → (if b
              then c
              else emit
                  (record c.state { reasoning_parts = c.state.reasoning_parts ++ (s ∷ []) })
                  c).state.content_parts
            ≡ c.state.content_parts
      of_test true = refl
      of_test false = refl
  reasoning_value null c = refl
  reasoning_value (bool b) c = refl
  reasoning_value (int n) c = refl
  reasoning_value (float x) c = refl
  reasoning_value (arr vs) c = refl
  reasoning_value (obj fs) c = refl

  finish_value :
      (v : Value) (a : StreamAccumulator) → (take_finish v a).content_parts ≡ a.content_parts
  finish_value (str s) a = refl
  finish_value null a = refl
  finish_value (bool b) a = refl
  finish_value (int n) a = refl
  finish_value (float x) a = refl
  finish_value (arr vs) a = refl
  finish_value (obj fs) a = refl

  usage_value :
      (v : Value) (a : StreamAccumulator) → (take_usage v a).content_parts ≡ a.content_parts
  usage_value (str s) a = refl
  usage_value null a = refl
  usage_value (bool b) a = refl
  usage_value (int n) a = refl
  usage_value (float x) a = refl
  usage_value (arr vs) a = refl
  usage_value (obj fs) a = refl

  pub error_value :
      (v : Value) (a : StreamAccumulator) → (take_error v a).content_parts ≡ a.content_parts
  error_value (str s) a = refl
  error_value null a = refl
  error_value (bool b) a = refl
  error_value (int n) a = refl
  error_value (float x) a = refl
  error_value (arr vs) a = refl
  error_value (obj fs) a = refl

  -- A chunk is read as its delta, from a state with the same text.
  chunk_delta :
      (t : Translation) (delta : Fields) (finish : Value) (rest : Fields) (c : Consumed)
      → (d : Consumed) × (take_value parse show parse_int
            (some (chunk parse show parse_int now model t delta finish rest))
            c
          ≡ take_delta parse show parse_int (obj delta) d)
        × (d.state.content_parts ≡ c.state.content_parts)
  unfolding take_event text list_beq get lookup
  chunk_delta t delta finish rest c = (
    _,
    refl,
    finish_value finish _
        ∙ (usage_value (get_null (text "usage") rest) _
            ∙ error_value (get_null (text "error") rest) _),
  )

  pub one-Adds :
      (v : Value) (c d : Consumed) (texts : List Str)
      → take_value parse show parse_int (some v) c ≡ some d
      → d.state.content_parts ≡ c.state.content_parts ++ texts
      → Adds c (v ∷ []) texts
  unfolding take_chunks
  one-Adds v c d texts h k = record { after = d; reads = rw h refl; content = k }

  pub delta-Adds :
      (t : Translation) (delta : Fields) (finish : Value) (rest : Fields) (c : Consumed)
      → get_null (text "tool_calls") delta ≡ null
      → Adds c
          (chunk parse show parse_int now model t delta finish rest ∷ [])
          (text_part (get_null (text "content") delta))
  delta-Adds t delta finish rest c h =
      let (d, e, k) = chunk_delta t delta finish rest c in
      one-Adds (chunk parse show parse_int now model t delta finish rest) c
        (take_reasoning
          (or_else (get_null (text "reasoning_content") delta) (get_null (text "reasoning") delta))
          (take_content (get_null (text "content") delta) d))
        (text_part (get_null (text "content") delta)) (rw e (rw h refl))
        (reasoning_value _ _
          ∙ (content_value (get_null (text "content") delta) d
              ∙ ap (λ parts. parts ++ text_part (get_null (text "content") delta)) k))

  pub call-Adds :
      (t : Translation) (index : ℕ) (call : Fields) (finish : Value) (rest : Fields) (c : Consumed)
      → Adds c (chunk parse show parse_int now model t (call_delta index call) finish rest ∷ []) []
  unfolding text list_beq get lookup take_calls
  call-Adds t index call finish rest c =
      let (d, e, k) = chunk_delta t (call_delta index call) finish rest c in
      one-Adds (chunk parse show parse_int now model t (call_delta index call) finish rest) c _ [] e
        (reasoning_value _ _ ∙ (k ∙ sym (append_none c.state.content_parts)))
