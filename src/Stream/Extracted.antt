-- ===== src/Stream/Extracted.antt =====
-- What `extract_test_response_content` of app/main.py finds in the payload that a stream leaves.
use prismux.Prelude.{
  ℕ, ◌≡◌, refl, false, Bool-cases, inl, inr, Option, none, some, List, [], ◌∷◌, Str, text, text_eq,
  list_beq, ◌==◌, lookup, insert, is_empty, pos, is_blank, strip, if◌then◌else◌,
}
use prismux.Json.{Value, Fields, str, int, obj, end, field, get, put, get-put, get_null}
use prismux.Stream.{StreamAccumulator}
use prismux.Stream.Payload.{
  joined, text_or_null, text_value, text_of, visible, with_reasoning, with_tool_calls, with_error,
  message_of, extract_choice, response_payload, extract_test_response_content,
}

-- A text that is all blanks counts as none.
abbrev pub shown : Str → Option Str
shown s = if is_blank (strip s) then none else some s

visible-text : (s : Str) → visible (text_or_null s) ≡ shown s
unfolding strip
visible-text [] = refl
visible-text (c ∷ s) = refl

text_of-value : (s : Option Str) → text_of (text_value s) ≡ s
text_of-value none = refl
text_of-value (some s) = refl

module _ (a : StreamAccumulator) where
  abbrev bare : Fields
  bare =
      field (text "role") (str (text "assistant"))
        (field (text "content") (text_or_null (joined a.content_parts)) end)

  calls_keep :
      (k : Str) (m : Fields)
      → (text "tool_calls" == k) ≡ false
      → get k (with_tool_calls a.tool_calls m) ≡ get k m
  calls_keep k m h = elim (Bool-cases (is_empty a.tool_calls)) [
    | inl none_called ↦ rw none_called refl
    | inr called ↦ rw called (rw (get-put k (text "tool_calls") _ m, h) refl)
  ]

  content_of :
      (parts : List Str)
      → get (text "content") (with_reasoning parts bare)
        ≡ some (text_or_null (joined a.content_parts))
  unfolding get put insert lookup text list_beq
  content_of [] = refl
  content_of (p ∷ ps) = refl

  reasoning_of :
      (parts : List Str)
      → visible (get_null (text "reasoning_content") (with_reasoning parts bare))
        ≡ shown (joined parts)
  unfolding get put insert lookup text list_beq strip
  reasoning_of [] = refl
  reasoning_of (p ∷ ps) = refl

choices_of :
    (e : Option Fields) (choices : Value) (id created model usage : Value)
    → get (text "choices") (
        with_error e (
          field (text "id") id (
            field (text "object") (str (text "chat.completion")) (
              field (text "created") created (
                field
                  (text "model")
                  model
                  (field (text "choices") choices (field (text "usage") usage end)))))))
      ≡ some choices
unfolding get put insert lookup text list_beq
choices_of none choices id created model usage = refl
choices_of (some end) choices id created model usage = refl
choices_of (some (field k v fs)) choices id created model usage = refl

calls_content : (text "tool_calls" == text "content") ≡ false
unfolding text list_beq
calls_content = refl

calls_reasoning : (text "tool_calls" == text "reasoning_content") ≡ false
unfolding text list_beq
calls_reasoning = refl

content_shown :
    (a : StreamAccumulator)
    → visible (get_null (text "content") (message_of a)) ≡ shown (joined a.content_parts)
content_shown a =
    rw
      (
        calls_keep a (text "content") (with_reasoning a.reasoning_parts (bare a)) calls_content,
        content_of a a.reasoning_parts,
      )
      (visible-text (joined a.content_parts))

reasoning_shown :
    (a : StreamAccumulator)
    → visible (get_null (text "reasoning_content") (message_of a))
      ≡ shown (joined a.reasoning_parts)
reasoning_shown a =
    rw
      (calls_keep a (text "reasoning_content") (with_reasoning a.reasoning_parts (bare a))
        calls_reasoning)
      (reasoning_of a a.reasoning_parts)

choice_shown :
    (a : StreamAccumulator)
    → extract_choice (
        obj (
          field (text "index") (int (pos 0)) (
            field
              (text "message")
              (obj (message_of a))
              (field (text "finish_reason") (text_value a.finish_reason) end)))
        ∷ [])
      ≡ record {
        content = shown (joined a.content_parts);
        reasoning = shown (joined a.reasoning_parts);
        finish_reason = a.finish_reason;
      }
unfolding get lookup text list_beq
choice_shown a = cc (content_shown a, reasoning_shown a, text_of-value a.finish_reason)

-- The result of a test of a stream shows what was gathered from it: the content, the reasoning and
-- the reason to finish, with none for a text that is all blanks.
pub extract-response_payload :
    (now : ℕ) (model : Str) (usage : Value) (a : StreamAccumulator)
    → extract_test_response_content (obj (response_payload now model usage a)) ≡ record {
      content = shown (joined a.content_parts);
      reasoning = shown (joined a.reasoning_parts);
      finish_reason = a.finish_reason;
    }
unfolding response_payload extract_test_response_content
extract-response_payload now model usage a = rw (choices_of a.error _ _ _ _ usage) (choice_shown a)
