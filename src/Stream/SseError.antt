-- ===== src/Stream/SseError.antt =====
-- `extract_sse_error` of app/main.py, on the lines of a text. `parse` is `json.loads` (`none` when it
-- fails).
use prismux.Prelude.{
  ◌≡◌, refl, true, Bool-cases, inl, inr, ◌||◌, Option, none, some, Option-cases, List, [], ◌∷◌,
  ◌++◌, ap, Str, text, text_eq, ◌==◌, eq_iff, ◌∙◌, strip, drop, starts_with, is_blank,
  if◌then◌else◌,
}
use prismux.Json.{Value, Fields, null, bool, int, float, str, arr, obj, get_null, has}

abbrev pub envelope : Value → Option Fields
envelope (obj error) = if has (text "message") error then some error else none
envelope v = none

abbrev pub error_of : Option Value → Option Fields
error_of (some (obj chunk)) = envelope (get_null (text "error") chunk)
error_of v = none

abbrev pub first_error : Option Fields → Option Fields → Option Fields
first_error (some e) rest = some e
first_error none rest = rest

module _ (parse : Str → Option Value) where
  unfoldable pub error_in_line : Str → Option Fields
  error_in_line line =
      let content = strip (drop 5 (strip line)) in
      if starts_with (strip line) (text "data:")
      then (if is_blank content || content == text "[DONE]" then none else error_of (parse content))
      else none

  unfoldable pub extract_sse_error : List Str → Option Fields
  extract_sse_error [] = none
  extract_sse_error (line ∷ lines) =
      let rest = extract_sse_error lines in first_error (error_in_line line) rest

  -- A data line whose JSON is an object with an error envelope.
  pub record Carries (line : Str) (error : Fields) : Type 0 where
    pub is_data : starts_with (strip line) (text "data:") ≡ true
    pub chunk : Fields
    pub parsed : parse (strip (drop 5 (strip line))) ≡ some (obj chunk)
    pub under_error : get_null (text "error") chunk ≡ obj error
    pub message : has (text "message") error ≡ true

  envelope-some :
      (v : Value) (e : Fields) → envelope v ≡ some e → (v ≡ obj e) × (has (text "message") e ≡ true)
  envelope-some (obj error) e h = elim (Bool-cases (has (text "message") error)) [
    | inl yes_message ↦
        let k : ◌≡◌ {A = Option Fields} (some error) (some e) = rw yes_message at h in
        let l : error ≡ e = cc k in
        (ap obj l, cc (ap (λ (x : Fields). has (text "message") x) l, yes_message))
    | inr without ↦ let k : ◌≡◌ {A = Option Fields} none (some e) = rw without at h in absurd (cc k)
  ]
  envelope-some null e h = absurd (cc h)
  envelope-some (bool b) e h = absurd (cc h)
  envelope-some (int n) e h = absurd (cc h)
  envelope-some (float x) e h = absurd (cc h)
  envelope-some (str s) e h = absurd (cc h)
  envelope-some (arr vs) e h = absurd (cc h)

  parsed-Carries :
      (line : Str) (o : Option Value) (e : Fields)
      → starts_with (strip line) (text "data:") ≡ true
      → parse (strip (drop 5 (strip line))) ≡ o
      → error_of o ≡ some e
      → Carries line e
  parsed-Carries line (some (obj chunk)) e d p h =
      let (v, m) = envelope-some (get_null (text "error") chunk) e h in
      record { is_data = d; chunk = chunk; parsed = p; under_error = v; message = m }
  parsed-Carries line none e d p h = absurd (cc h)
  parsed-Carries line (some null) e d p h = absurd (cc h)
  parsed-Carries line (some (bool b)) e d p h = absurd (cc h)
  parsed-Carries line (some (int n)) e d p h = absurd (cc h)
  parsed-Carries line (some (float x)) e d p h = absurd (cc h)
  parsed-Carries line (some (str s)) e d p h = absurd (cc h)
  parsed-Carries line (some (arr vs)) e d p h = absurd (cc h)

  line-Carries : (line : Str) (e : Fields) → error_in_line line ≡ some e → Carries line e
  unfolding error_in_line
  line-Carries line e h = elim (Bool-cases (starts_with (strip line) (text "data:"))) [
    | inr other ↦ let k : ◌≡◌ {A = Option Fields} none (some e) = rw other at h in absurd (cc k)
    | inl is_data ↦
        let content : Str = strip (drop 5 (strip line)) in
        elim (Bool-cases (is_blank content || content == text "[DONE]")) [
          | inl skipped ↦
              let k : ◌≡◌ {A = Option Fields} none (some e) = rw (is_data, skipped) at h in
              absurd (cc k)
          | inr read ↦ parsed-Carries line (parse content) e is_data refl (rw (is_data, read) at h)
        ]
  ]

  abbrev pub NoneCarry : List Str → Type 0
  NoneCarry [] = Unit
  NoneCarry (line ∷ lines) = ((e : Fields) → Carries line e → ⊥) × NoneCarry lines

  -- The first line that carries an error, or none that does.
  abbrev pub Finds : List Str → Option Fields → Type 0
  Finds lines none = NoneCarry lines
  Finds lines (some e) =
      (before : List Str) × (line : Str) × (after : List Str) × (lines ≡ before ++ line ∷ after)
      × Carries line e
      × NoneCarry before

  module _ (no_value : parse [] ≡ none) (no_marker : parse (text "[DONE]") ≡ none) where
    blank_fails : (s : Str) → is_blank s ≡ true → parse s ≡ none
    blank_fails [] h = no_value
    blank_fails (c ∷ s) h = absurd (cc h)

    skipped_fails : (s : Str) → (is_blank s || s == text "[DONE]") ≡ true → parse s ≡ none
    skipped_fails s h = elim (Bool-cases (is_blank s)) [
      | inl blank ↦ blank_fails s blank
      | inr other ↦
          let k : (s == text "[DONE]") ≡ true = rw other at h in
          ap parse ((eq_iff s (text "[DONE]")).0 k) ∙ no_marker
    ]

    carried_found : (line : Str) (e : Fields) → Carries line e → error_in_line line ≡ some e
    unfolding error_in_line
    carried_found line e c =
        let content : Str = strip (drop 5 (strip line)) in
        elim (Bool-cases (is_blank content || content == text "[DONE]")) [
          | inl skipped ↦ let k = skipped_fails content skipped in absurd (cc (k, c.parsed))
          | inr read ↦
              rw (c.is_data, read)
                (ap error_of c.parsed ∙ ap envelope c.under_error ∙ rw c.message refl)
        ]

    Finds-cons :
        (line : Str) (lines : List Str) (o : Option Fields)
        → error_in_line line ≡ none
        → Finds lines o
        → Finds (line ∷ lines) o
    Finds-cons line lines none h k = (λ e c. cc (h, carried_found line e c), k)
    Finds-cons line lines (some x) h (before, found, after, split_at, carries, earlier) = (
      line ∷ before,
      found,
      after,
      ap (◌∷◌ line) split_at,
      carries,
      (λ e c. cc (h, carried_found line e c), earlier),
    )

    -- Where neither the empty text nor the end marker is JSON, what is found in a text is the error of the
    -- first data line that carries an error envelope with a message, and nothing is found exactly if
    -- no line carries one.
    pub extract_sse_error-Finds : (lines : List Str) → Finds lines (extract_sse_error lines)
    unfolding extract_sse_error
    extract_sse_error-Finds [] = tt
    extract_sse_error-Finds (line ∷ lines) = elim (Option-cases (error_in_line line)) [
      | inr (x, here) ↦ rw here ([], line, lines, refl, line-Carries line x here, tt)
      | inl nothing ↦
          rw nothing (
            Finds-cons line lines (extract_sse_error lines) nothing (extract_sse_error-Finds lines))
    ]
