-- ===== src/Adapter/Streamed.antt =====
-- What a translated stream gives the accumulator: `AnthropicAdapter.translate_stream` of
-- app/multi_provider.py composed with `StreamAccumulator.consume` of app/main.py.
use prismux.Prelude.{
  ◌≡◌, refl, sym, ◌∙◌, ap, Bool, true, false, not, ◌||◌, Option, none, some, List, [], ◌∷◌, ◌++◌,
  Str, text, text_eq, ◌==◌, list_beq, eq_iff, ℕ, ℤ, lookup, is_blank, starts_with, strip, drop,
  if◌then◌else◌,
}
use prismux.Json.{
  Value, Fields, null, bool, int, float, str, arr, obj, end, field, get, get_or, get_null,
}
use prismux.Stream.{Consumed, StreamAccumulator, take_event, take_value, then_calls}
use prismux.Adapter.Checked.{Checked, good, refused, raised, ◌>>=◌, or_raise}
use prismux.Adapter.Payload.{is_text, dict, dict_at}
use prismux.Adapter.Answer.{finish_of}
use prismux.Adapter.AnthropicStream.{
  Translation, Emitted, quiet, call_delta, chunk, on_message_start, on_tool_use, on_block_start,
  on_block_delta, on_message_delta, on_event, on_line, emit_then, translate_lines, translate_stream,
  event_index, index_of, no_translation,
}
use prismux.Adapter.Laws.{good_injective}
use prismux.Adapter.StreamText.{
  text_part, delta_text, event_text, append_none, take_chunks, Adds, one-Adds, delta-Adds,
  call-Adds, error_value,
}

-- Texts that differ are told apart.
is_text_other :
    (s t : Str) (v : Value) → (s == t) ≡ false → is_text s v ≡ true → is_text t v ≡ false
is_text_other s t (str u) h k = rw ((eq_iff u s).0 k) h
is_text_other s t null h k = refl
is_text_other s t (bool b) h k = refl
is_text_other s t (int n) h k = refl
is_text_other s t (float x) h k = refl
is_text_other s t (arr vs) h k = refl
is_text_other s t (obj fs) h k = refl

start_is_no_delta : (text "message_start" == text "content_block_delta") ≡ false
unfolding text list_beq
start_is_no_delta = refl

block_is_no_delta : (text "content_block_start" == text "content_block_delta") ≡ false
unfolding text list_beq
block_is_no_delta = refl

append_all : (xs ys zs : List Str) → (xs ++ ys) ++ zs ≡ xs ++ (ys ++ zs)
append_all [] ys zs = refl
append_all (x ∷ xs) ys zs = ap (λ r. x ∷ r) (append_all xs ys zs)

module _ (parse : Str → Option Value) (show : Value → Str) (parse_int : Str → Option ℤ) (now : ℕ)
    (model : Str) where
  abbrev Gives : Consumed → Checked Emitted → List Str → Type 0
  Gives c (good (t, chunks)) texts = Adds parse show parse_int now model c chunks texts
  Gives c (refused e) texts = Unit
  Gives c raised texts = Unit

  quiet-Adds : (c : Consumed) → Adds parse show parse_int now model c [] []
  unfolding take_chunks
  quiet-Adds c = record {
    after = c;
    reads = refl;
    content = sym (append_none c.state.content_parts);
  }

  bind-Gives :
      {A : Type 0} (m : Checked A) (f : A → Checked Emitted) (c : Consumed) (texts : List Str)
      → ((a : A) → m ≡ good a → Gives c (f a) texts)
      → Gives c (m >>= f) texts
  bind-Gives (good a) f c texts h = h a refl
  bind-Gives (refused e) f c texts h = tt
  bind-Gives raised f c texts h = tt

  message_start-Gives :
      (event : Fields) (t : Translation) (c : Consumed)
      → Gives c (on_message_start parse show parse_int now model event t) []
  unfolding text list_beq get lookup
  message_start-Gives event t c = bind-Gives (dict_at (text "message") event) _ c [] (λ message _.
      bind-Gives (dict_at (text "usage") message) _ c [] (λ usage _.
        delta-Adds parse show parse_int now model
          (record t { message_id = get_or (text "id") message (str []) })
          (field (text "role") (str (text "assistant")) (field (text "content") (str []) end)) null
          _ c refl))

  tool_use-Gives :
      (event block : Fields) (t : Translation) (c : Consumed)
      → Gives c (on_tool_use parse show parse_int now model event block t) []
  tool_use-Gives event block t c =
      bind-Gives (event_index parse show parse_int now model event) _ c []
        (λ index _. call-Adds parse show parse_int now model t _ _ null end c)

  block_start-Gives :
      (event : Fields) (t : Translation) (c : Consumed)
      → Gives c (on_block_start parse show parse_int now model event t) []
  block_start-Gives event t c =
      bind-Gives (dict_at (text "content_block") event) _ c []
        (λ block _. of_kind block (is_text (text "tool_use") (get_null (text "type") block)))
    where
      of_kind :
          (block : Fields) (b : Bool)
          → Gives c
              (if b
                then on_tool_use parse show parse_int now model event block t
                else good (quiet t))
              []
      of_kind block true = tool_use-Gives event block t c
      of_kind block false = quiet-Adds c

  dict-obj : (v : Value) (fs : Fields) → dict v ≡ good fs → v ≡ obj fs
  dict-obj (obj gs) fs h = ap obj (good_injective gs fs h)
  dict-obj null fs h = absurd (let n : ◌≡◌ {A = Checked Fields} raised (good fs) = h in cc n)
  dict-obj (bool b) fs h = absurd (let n : ◌≡◌ {A = Checked Fields} raised (good fs) = h in cc n)
  dict-obj (int m) fs h = absurd (let n : ◌≡◌ {A = Checked Fields} raised (good fs) = h in cc n)
  dict-obj (float x) fs h = absurd (let n : ◌≡◌ {A = Checked Fields} raised (good fs) = h in cc n)
  dict-obj (str s) fs h = absurd (let n : ◌≡◌ {A = Checked Fields} raised (good fs) = h in cc n)
  dict-obj (arr vs) fs h = absurd (let n : ◌≡◌ {A = Checked Fields} raised (good fs) = h in cc n)

  text_delta-Gives :
      (v : Value) (t : Translation) (c : Consumed)
      → Gives c
          (good (
            t,
            chunk parse show parse_int now model t (field (text "content") v end) null end ∷ [],
          ))
          (text_part v)
  unfolding text list_beq get lookup
  text_delta-Gives v t c =
      delta-Adds parse show parse_int now model t (field (text "content") v end) null end c refl

  thinking-Gives :
      (v : Value) (t : Translation) (c : Consumed)
      → Gives c
          (good (
            t,
            chunk parse show parse_int now model t (field (text "reasoning_content") v end) null end
                ∷ [],
          ))
          []
  unfolding text list_beq get lookup
  thinking-Gives v t c =
      delta-Adds parse show parse_int now model t (field (text "reasoning_content") v end) null end
        c refl

  json-Gives :
      (event delta : Fields) (t : Translation) (c : Consumed)
      → Gives c
          (event_index parse show parse_int now model event >>= λ index. good (
            t,
            chunk parse show parse_int now model t
                  (call_delta (index_of index t.tool_indexes) (
                    field
                      (text "function")
                      (obj (
                        field (text "arguments") (get_or (text "partial_json") delta (str [])) end))
                      end))
                  null
                  end
                ∷ [],
          ))
          []
  json-Gives event delta t c =
      bind-Gives (event_index parse show parse_int now model event) _ c []
        (λ index _. call-Adds parse show parse_int now model t _ _ null end c)

  block_delta-Gives :
      (event : Fields) (t : Translation) (c : Consumed)
      → Gives c
          (on_block_delta parse show parse_int now model event t)
          (delta_text (get_or (text "delta") event (obj end)))
  block_delta-Gives event t c =
      bind-Gives (dict_at (text "delta") event) _ c
        (delta_text (get_or (text "delta") event (obj end)))
        (λ delta h. rw (dict-obj (get_or (text "delta") event (obj end)) delta h) (
          of_kind delta (is_text (text "text_delta") (get_null (text "type") delta))
            (is_text (text "thinking_delta") (get_null (text "type") delta))
            (is_text (text "input_json_delta") (get_null (text "type") delta))))
    where
      of_kind :
          (delta : Fields) (is_content is_thinking is_json : Bool)
          → Gives c
              (if is_content
                then good (
                  t,
                  chunk parse show parse_int now model t
                        (field (text "content") (get_or (text "text") delta (str [])) end)
                        null
                        end
                      ∷ [],
                )
                else if is_thinking
                then good (
                  t,
                  chunk parse show parse_int now model t
                        (field
                          (text "reasoning_content")
                          (get_or (text "thinking") delta (str []))
                          end)
                        null
                        end
                      ∷ [],
                )
                else if is_json
                then (event_index parse show parse_int now model event >>= λ index. good (
                  t,
                  chunk parse show parse_int now model t
                        (call_delta (index_of index t.tool_indexes) (
                          field
                            (text "function")
                            (obj (
                              field
                                (text "arguments")
                                (get_or (text "partial_json") delta (str []))
                                end))
                            end))
                        null
                        end
                      ∷ [],
                ))
                else good (quiet t))
              (if is_content then text_part (get_or (text "text") delta (str [])) else [])
      of_kind delta true k j = text_delta-Gives (get_or (text "text") delta (str [])) t c
      of_kind delta false true j = thinking-Gives (get_or (text "thinking") delta (str [])) t c
      of_kind delta false false true = json-Gives event delta t c
      of_kind delta false false false = quiet-Adds c

  message_delta-Gives :
      (event : Fields) (t : Translation) (c : Consumed)
      → Gives c (on_message_delta parse show parse_int now model event t) []
  unfolding text list_beq get lookup
  message_delta-Gives event t c = bind-Gives (dict_at (text "delta") event) _ c [] (λ delta _.
      bind-Gives (finish_of (get_null (text "stop_reason") delta)) _ c [] (λ finish _.
        bind-Gives (dict_at (text "usage") event) _ c []
          (λ usage _. delta-Adds parse show parse_int now model t end finish _ c refl)))

  error-Gives :
      (v : Value) (t : Translation) (c : Consumed)
      → Gives c (good (t, obj (field (text "error") v end) ∷ [])) []
  unfolding text list_beq get lookup take_event
  error-Gives v t c =
      one-Adds parse show parse_int now model (obj (field (text "error") v end)) c _ [] refl
        (error_value parse show parse_int now model v _ ∙ sym (append_none c.state.content_parts))

  event-Gives :
      (event : Fields) (t : Translation) (c : Consumed)
      → Gives c (on_event parse show parse_int now model event t) (event_text (obj event))
  unfolding on_event
  event-Gives event t c =
      let event_type = get_null (text "type") event in
      of_type (is_text (text "message_start") event_type)
        (is_text (text "content_block_start") event_type)
        (is_text (text "content_block_delta") event_type)
        (is_text (text "message_delta") event_type) (is_text (text "error") event_type)
        (is_text_other (text "message_start") (text "content_block_delta") event_type
          start_is_no_delta)
        (is_text_other (text "content_block_start") (text "content_block_delta") event_type
          block_is_no_delta)
    where
      of_type :
          (starts opens adds ends fails : Bool)
          → (starts ≡ true → adds ≡ false)
          → (opens ≡ true → adds ≡ false)
          → Gives c
              (if starts
                then on_message_start parse show parse_int now model event t
                else if opens
                then on_block_start parse show parse_int now model event t
                else if adds
                then on_block_delta parse show parse_int now model event t
                else if ends
                then on_message_delta parse show parse_int now model event t
                else if fails
                then good
                    (t, obj (field (text "error") (get_or (text "error") event (obj end)) end) ∷ [])
                else good (quiet t))
              (if adds then delta_text (get_or (text "delta") event (obj end)) else [])
      of_type true o a m e h k = rw (h refl) (message_start-Gives event t c)
      of_type false true a m e h k = rw (k refl) (block_start-Gives event t c)
      of_type false false true m e h k = block_delta-Gives event t c
      of_type false false false true e h k = message_delta-Gives event t c
      of_type false false false false true h k =
          error-Gives (get_or (text "error") event (obj end)) t c
      of_type false false false false false h k = quiet-Adds c

  -- The text in a line of Anthropic's stream.
  abbrev pub parsed_text : Option Value → List Str
  parsed_text none = []
  parsed_text (some event) = event_text event

  abbrev pub line_text : Str → List Str
  line_text line =
      let content = strip (drop 5 line) in
      if not (starts_with line (text "data:")) || (is_blank content || content == text "[DONE]")
      then []
      else parsed_text (parse content)

  abbrev pub lines_text : List Str → List Str
  lines_text [] = []
  lines_text (line ∷ lines) = line_text line ++ lines_text lines

  value-Gives :
      (v : Option Value) (t : Translation) (c : Consumed)
      → Gives c
          (or_raise v >>= λ event.
            dict event >>= λ fs. on_event parse show parse_int now model fs t)
          (parsed_text v)
  value-Gives none t c = tt
  value-Gives (some (obj event)) t c = event-Gives event t c
  value-Gives (some null) t c = tt
  value-Gives (some (bool b)) t c = tt
  value-Gives (some (int n)) t c = tt
  value-Gives (some (float x)) t c = tt
  value-Gives (some (str s)) t c = tt
  value-Gives (some (arr vs)) t c = tt

  line-Gives :
      (line : Str) (t : Translation) (c : Consumed)
      → Gives c (on_line parse show parse_int now model line t) (line_text line)
  unfolding on_line
  line-Gives line t c =
      of_line (starts_with line (text "data:")) (is_blank content || content == text "[DONE]")
    where
      content : Str
      content = strip (drop 5 line)

      of_line :
          (is_data skips : Bool)
          → Gives c
              (if is_data
                then (if skips
                    then good (quiet t)
                    else (or_raise (parse (strip (drop 5 line))) >>= λ event.
                        dict event >>= λ fs. on_event parse show parse_int now model fs t))
                else good (quiet t))
              (if not is_data || skips then [] else parsed_text (parse (strip (drop 5 line))))
      of_line false b = quiet-Adds c
      of_line true true = quiet-Adds c
      of_line true false = value-Gives (parse (strip (drop 5 line))) t c

  take_chunks-append :
      (xs ys : List Value) (c d : Consumed)
      → take_chunks parse show parse_int now model xs c ≡ some d
      → take_chunks parse show parse_int now model (xs ++ ys) c
        ≡ take_chunks parse show parse_int now model ys d
  unfolding take_chunks
  take_chunks-append [] ys c d h = let same : c ≡ d = cc h in rw same refl
  take_chunks-append (x ∷ xs) ys c d h =
      after_first (take_value parse show parse_int (some x) c) (λ e. take_chunks-append xs ys e d) h
    where
      after_first :
          (o : Option Consumed)
          → ((e : Consumed)
              → take_chunks parse show parse_int now model xs e ≡ some d
              → take_chunks parse show parse_int now model (xs ++ ys) e
                ≡ take_chunks parse show parse_int now model ys d)
          → then_calls parse show parse_int o (λ e. take_chunks parse show parse_int now model xs e)
            ≡ some d
          → then_calls parse show parse_int o
              (λ e. take_chunks parse show parse_int now model (xs ++ ys) e)
            ≡ take_chunks parse show parse_int now model ys d
      after_first none k e = absurd (let n : ◌≡◌ {A = Option Consumed} none (some d) = e in cc n)
      after_first (some c₁) k e = k c₁ e

  both-Adds :
      (c : Consumed) (xs ys : List Value) (s r : List Str)
      → Adds parse show parse_int now model c xs s
      → ((d : Consumed) → Adds parse show parse_int now model d ys r)
      → Adds parse show parse_int now model c (xs ++ ys) (s ++ r)
  both-Adds c xs ys s r a k =
      let b = k a.after in
      record {
        after = b.after;
        reads = take_chunks-append xs ys c a.after a.reads ∙ b.reads;
        content =
            b.content ∙ (ap (λ parts. parts ++ r) a.content ∙ append_all c.state.content_parts s r);
      }

  step-Adds :
      (m : Checked Emitted) (k : Translation → List Value × Bool) (c : Consumed)
      (texts rest : List Str)
      → Gives c m texts
      → ((u : Translation) (d : Consumed)
          → (k u).1 ≡ true
          → Adds parse show parse_int now model d (k u).0 rest)
      → (emit_then parse show parse_int now model m k).1 ≡ true
      → Adds parse show parse_int now model c
          (emit_then parse show parse_int now model m k).0
          (texts ++ rest)
  step-Adds (good (t, chunks)) k c texts rest g h e =
      both-Adds c chunks (k t).0 texts rest g (λ d. h t d e)
  step-Adds (refused x) k c texts rest g h e = absurd (let n : false ≡ true = e in cc n)
  step-Adds raised k c texts rest g h e = absurd (let n : false ≡ true = e in cc n)

  lines-Adds :
      (lines : List Str) (t : Translation) (c : Consumed)
      → (translate_lines parse show parse_int now model lines t).1 ≡ true
      → Adds parse show parse_int now model c
          (translate_lines parse show parse_int now model lines t).0
          (lines_text lines)
  unfolding translate_lines
  lines-Adds [] t c h = quiet-Adds c
  lines-Adds (line ∷ lines) t c h =
      step-Adds (on_line parse show parse_int now model line t) _ c (line_text line)
        (lines_text lines) (line-Gives line t c) (λ u d. lines-Adds lines u d) h

  -- For every stream of Anthropic's that is translated to its end, and every state of the
  -- accumulator: the accumulator reads the chunks that are emitted without an exception, and the
  -- texts it gathers are the non-empty texts of the stream's text deltas, each once and in order.
  pub translate_stream-Adds :
      (lines : List Str) (a : StreamAccumulator)
      → (translate_stream parse show parse_int now model lines).1 ≡ true
      → (d : Consumed) × (take_chunks parse show parse_int now model
            (translate_stream parse show parse_int now model lines).0
            (record { state = a; done = false; emitted = false })
          ≡ some d)
        × (d.state.content_parts ≡ a.content_parts ++ lines_text lines)
  unfolding translate_stream
  translate_stream-Adds lines a h =
      let r =
        lines-Adds lines no_translation (record { state = a; done = false; emitted = false }) h in
      (r.after, r.reads, r.content)
