-- ===== src/Stream/Tests.antt =====
-- `StreamAccumulator` of app/main.py at a concrete stream.
use prismux.Prelude.{
  ◌≡◌, refl, Option, none, some, true, [], ◌∷◌, Str, text, list_beq, text_eq, ◌==◌, if◌then◌else◌,
  has_key, lookup, strip, starts_with, pos, ℤ, ◌+ℤ◌,
}
use prismux.Json.{Value, null, int, str, arr, obj, end, field, nil, cons, get, has, truthy}
use prismux.Stream.{
  StreamAccumulator, new, consume, take_line, take_lines, take_event, take_calls, Usage, usage,
}
use prismux.Stream.Payload.{joined, response_payload, extract_test_response_content}
use prismux.Stream.Extracted.{shown, extract-response_payload}
use prismux.Stream.SseError.{error_in_line, extract_sse_error, Finds, extract_sse_error-Finds}
use prismux.Stream.Reported.{Reports, usage-Reports}

-- One event: a piece of content, and the prompt tokens.
abbrev event : Value
event = obj (
    field (text "choices")
      (arr (
        cons (obj (field (text "delta") (obj (field (text "content") (str (text "hi")) end)) end))
          nil))
      (field (text "usage") (obj (field (text "prompt_tokens") (int (pos 3)) end)) end))

abbrev parse : Str → Option Value
parse s = some event

abbrev show : Value → Str
show v = []

abbrev parse_int : Str → Option ℤ
parse_int s = none

abbrev seen : StreamAccumulator
seen = record new { content_parts = text "hi" ∷ []; prompt_tokens = some (pos 3) }

one_chunk :
    consume parse show parse_int (text "data: {}" ∷ text "data: [DONE]" ∷ []) new
    ≡ some (record { state = seen; done = true; emitted = true })
unfolding consume take_lines take_line take_event take_calls text list_beq strip starts_with lookup
    get truthy
one_chunk = refl

abbrev reported : Usage parse show parse_int
reported = record {
  prompt_tokens = pos 3;
  completion_tokens = pos 1;
  total_tokens = pos 4;
  estimated = true;
}

usage_seen : usage parse show parse_int end seen ≡ some reported
unfolding usage text ◌+ℤ◌ get lookup truthy
usage_seen = refl

usage-Reports_example : Reports parse show parse_int seen reported
usage-Reports_example = usage-Reports parse show parse_int end seen reported usage_seen

extract-response_payload_example :
    extract_test_response_content (obj (response_payload 7 (text "m") null seen)) ≡ record {
      content = shown (joined seen.content_parts);
      reasoning = shown (joined seen.reasoning_parts);
      finish_reason = none;
    }
extract-response_payload_example = extract-response_payload 7 (text "m") null seen

abbrev failing : Value
failing =
    obj (field (text "error") (obj (field (text "message") (str (text "overloaded")) end)) end)

-- Only `{}` stands for a chunk, and it is one with an error.
abbrev parse_error : Str → Option Value
parse_error s = if s == text "{}" then some failing else none

blank_is_no_json : parse_error [] ≡ none
unfolding text list_beq
blank_is_no_json = refl

marker_is_no_json : parse_error (text "[DONE]") ≡ none
unfolding text list_beq
marker_is_no_json = refl

extract_sse_error-Finds_example :
    Finds parse_error (text "data: {}" ∷ []) (extract_sse_error parse_error (text "data: {}" ∷ []))
extract_sse_error-Finds_example =
    extract_sse_error-Finds parse_error blank_is_no_json marker_is_no_json (text "data: {}" ∷ [])

found_error :
    extract_sse_error parse_error (text "data: {}" ∷ [])
    ≡ some (field (text "message") (str (text "overloaded")) end)
unfolding extract_sse_error error_in_line has has_key get lookup strip starts_with text list_beq
found_error = refl
