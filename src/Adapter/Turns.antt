-- ===== src/Adapter/Turns.antt =====
-- The first fields of what Anthropic is sent stay as they are when the others are written
-- (`AnthropicAdapter.prepare_request` of app/multi_provider.py).
use prismux.Prelude.{
  ◌≡◌, refl, sym, ◌∙◌, ap, Bool, true, false, Option, none, some, List, [], ◌∷◌, Str, text, text_eq,
  ◌==◌, contains, arith, if◌then◌else◌,
}
use prismux.Json.{
  Value, Fields, null, bool, int, float, str, arr, obj, end, field, of_elements, get, get_null, put,
  truthy,
}
use prismux.Adapter.Checked.{good, ◌>>=◌}
use prismux.Adapter.Payload.{dict_at, iterate}
use prismux.Adapter.Anthropic.{
  put_some, renamed_fields, copy_fields, add_tools, with_tools, put_choice, with_choice,
  with_system,
}
use prismux.Adapter.Laws.{bind-good, good_injective, get-put_other}

-- The fields that are written after the first four.
abbrev pub later_fields : List Str
later_fields =
    text "system"
    ∷ text "temperature"
    ∷ text "top_p"
    ∷ text "top_k"
    ∷ text "stop_sequences"
    ∷ text "tools"
    ∷ text "tool_choice"
    ∷ []

module _ (k : Str) (late : contains later_fields k ≡ false) where
  pub with_system-get :
      (system : List Value) (fs : Fields) → get k (with_system system fs) ≡ get k fs
  with_system-get [] fs = refl
  with_system-get (v ∷ vs) fs = get-put_other k (text "system") _ fs (ground arith)

  put_some-get :
      (name : Str) (v : Option Value) (fs : Fields)
      → (name == k) ≡ false
      → get k (put_some name v fs) ≡ get k fs
  put_some-get name none fs h = refl
  put_some-get name (some v) fs h = get-put_other k name v fs h

  pub copy_fields-get :
      (payload fs : Fields) → get k (copy_fields renamed_fields payload fs) ≡ get k fs
  unfolding copy_fields
  copy_fields-get payload fs =
      put_some-get (text "stop_sequences") (get (text "stop") payload) _ (ground arith)
      ∙ (put_some-get (text "top_k") (get (text "top_k") payload) _ (ground arith)
          ∙ (put_some-get (text "top_p") (get (text "top_p") payload) _ (ground arith)
              ∙ put_some-get (text "temperature") (get (text "temperature") payload) fs
                  (ground arith)))

  pub with_tools-get :
      (tools : Value) (fs gs : Fields) → with_tools tools fs ≡ good gs → get k gs ≡ get k fs
  with_tools-get tools fs gs h = given (truthy tools) h
    where
      given :
          (b : Bool)
          → (if b
              then (iterate tools >>= λ vs. add_tools vs [] >>= λ translated.
                  good (put (text "tools") (arr (of_elements translated)) fs))
              else good fs)
            ≡ good gs
          → get k gs ≡ get k fs
      given false h = ap (get k) (sym (good_injective fs gs h))
      given true h =
          let (vs, h₁, h₂) = bind-good (iterate tools) _ gs h in
          let (translated, h₃, h₄) = bind-good (add_tools vs []) _ gs h₂ in
          rw (sym (good_injective _ gs h₄)) (get-put_other k (text "tools") _ fs (ground arith))

  put_choice-get : (kind : Str) (rest fs : Fields) → get k (put_choice kind rest fs) ≡ get k fs
  put_choice-get kind rest fs = get-put_other k (text "tool_choice") _ fs (ground arith)

  named-get :
      (b : Bool) (name : Value) (fs : Fields)
      → get k (if b then put_choice (text "tool") (field (text "name") name end) fs else fs)
        ≡ get k fs
  named-get true name fs = put_choice-get (text "tool") _ fs
  named-get false name fs = refl

  texts-get :
      (required is_auto : Bool) (fs : Fields)
      → get k (
          if required
          then put_choice (text "any") end fs
          else if is_auto
          then put_choice (text "auto") end fs
          else fs)
        ≡ get k fs
  texts-get true is_auto fs = put_choice-get (text "any") end fs
  texts-get false true fs = put_choice-get (text "auto") end fs
  texts-get false false fs = refl

  pub with_choice-get :
      (choice : Value) (fs gs : Fields) → with_choice choice fs ≡ good gs → get k gs ≡ get k fs
  with_choice-get (str choice) fs gs h =
      rw (sym (good_injective _ gs h))
        (texts-get (choice == text "required") (choice == text "auto") fs)
  with_choice-get (obj choice) fs gs h =
      let (function, h₁, h₂) = bind-good (dict_at (text "function") choice) _ gs h in
      rw (sym (good_injective _ gs h₂))
        (named-get (truthy (get_null (text "name") function)) (get_null (text "name") function) fs)
  with_choice-get null fs gs h = ap (get k) (sym (good_injective fs gs h))
  with_choice-get (bool b) fs gs h = ap (get k) (sym (good_injective fs gs h))
  with_choice-get (int n) fs gs h = ap (get k) (sym (good_injective fs gs h))
  with_choice-get (float x) fs gs h = ap (get k) (sym (good_injective fs gs h))
  with_choice-get (arr vs) fs gs h = ap (get k) (sym (good_injective fs gs h))
