-- ===== src/Forward/Chat.antt =====
-- `forward_chat_request` of app/main.py. The texts of the errors that depend on Python's formatting
-- are given by `message`.
use prismux.Prelude.{
  ℕ, Bool, true, false, Option, none, some, List, [], ◌∷◌, Str, text, text_eq, ltb, ℤ, ◌+ℤ◌,
  if◌then◌else◌,
}
use prismux.Json.{
  Value, Fields, null, bool, str, obj, end, field, get_or, get_null, put, or_else, as_int,
}
use prismux.Sanitize.{sanitize}
use prismux.Pricing.{Breakdown}
use prismux.Log.Store.{Database, Attempt}
use prismux.Provider.Config.{ProviderConfig, AdapterKind, openai_compatible, anthropic, RouteTarget}
use prismux.Provider.Registry.{not_text, Result, ok, err, resolve, enabled_targets}
use prismux.Forward.{
  World, Trip, Outgoing, Prepared, Settlement, Endpoint, Failure, not_json, unresolved, no_provider,
  unsupported, Progress, Settled, final, Finish, unanswered, settled, unprepared, raised, hung,
  try_targets, start, settled_entry, failed_entry, log, error_payload,
}

-- `ProviderAdapter` as the two functions call it; `normalize_response` is `none` when it raises.
pub record Adapter : Type 0 where
  pub prepare_request : ProviderConfig → Fields → Str → Prepared
  pub prepare_embeddings_request : ProviderConfig → Fields → Str → Prepared
  pub normalize_response : ProviderConfig → Fields → Str → Option Fields

pub record Response : Type 0 where
  pub status_code : ℕ
  pub logged_status_code : Option ℕ
  pub wait_ms : ℕ
  pub error : Option Failure
  pub response_payload : Value
  pub usage : Value
  pub cost : Option Breakdown
  pub model : Value
  pub upstream_model : Str
  pub provider_id : Option Str
  pub attempts : List Attempt

-- The function returns, or an exception leaves it, or it does not come back from a wait.
pub data Forwarded : Type 0 where
  returns : Response → Forwarded
  raises : Forwarded
  hangs : Forwarded

abbrev pub usage_of : Value → Value
usage_of (obj payload) = get_null (text "usage") payload
usage_of v = null

abbrev pub tokens_of : Str → Value → Value
tokens_of name (obj usage) = get_null name usage
tokens_of name v = null

abbrev pub sum_tokens : Option ℤ → Option ℤ → Option ℤ
sum_tokens (some m) (some n) = some (m +ℤ n)
sum_tokens _ _ = none

abbrev pub sanitized : Value → Value
sanitized (obj fs) = sanitize (obj fs)
sanitized v = v

unfoldable pub settle_payload : Value → Settlement
settle_payload payload =
    let usage = usage_of payload in
    let prompt = tokens_of (text "prompt_tokens") usage in
    let completion = tokens_of (text "completion_tokens") usage in
    record {
      payload = payload;
      usage = usage;
      prompt_tokens = prompt;
      completion_tokens = completion;
      actual_tokens = sum_tokens (as_int prompt) (as_int completion);
    }

abbrev pub error_body : AdapterKind → Fields → Value
error_body anthropic body = obj (field (text "error") (get_or (text "error") body (obj body)) end)
error_body openai_compatible body = obj body

abbrev pub normalized : Option Fields → Option Settlement
normalized none = none
normalized (some fs) = some (settle_payload (sanitized (obj fs)))

-- The payload of an answer that is not passed over.
unfoldable pub settle_chat : Adapter → ProviderConfig → Str → ℕ → Value → Option Settlement
settle_chat adapter config model code (obj body) =
    if ltb code 400
    then normalized (adapter.normalize_response config body model)
    else some (settle_payload (sanitized (error_body config.adapter body)))
settle_chat adapter config model code body = some (settle_payload body)

abbrev pub endpoint : Adapter → Endpoint
endpoint adapter = record { prepare = adapter.prepare_request; settle = settle_chat adapter }

abbrev pub stored : Bool → Value → Value
stored true (obj fs) = obj (put (text "_test") (bool true) fs)
stored is_test v = v

module _ (db : Database) (ticks : ℕ) (adapter : Adapter) (estimate : Fields → Option ℕ)
    (message : Failure → Str) (http_reason : ℕ → Str) (trip : ℕ → Outgoing → Trip) where
  -- A return before a provider was called.
  abbrev pub early : ℕ → ℕ → Failure → Value → Str → Option Str → List Attempt → Response
  early code wait_ms failure model upstream_model provider_id attempts = record {
    status_code = code;
    logged_status_code = some code;
    wait_ms = wait_ms;
    error = some failure;
    response_payload = error_payload (message failure);
    usage = null;
    cost = none;
    model = model;
    upstream_model = upstream_model;
    provider_id = provider_id;
    attempts = attempts;
  }

  abbrev pub settled_response : Str → Progress → Settled → Response
  settled_response selector p s = record {
    status_code = s.status_code;
    logged_status_code = some s.status_code;
    wait_ms = p.total_wait_ms;
    error = none;
    response_payload = s.settlement.payload;
    usage = s.settlement.usage;
    cost = some s.cost;
    model = str selector;
    upstream_model = s.upstream_model;
    provider_id = some s.provider_id;
    attempts = p.attempts;
  }

  abbrev pub failed_response : Str → Progress → Response
  failed_response selector p = record {
    status_code = 502;
    logged_status_code = none;
    wait_ms = p.total_wait_ms;
    error = some p.last_error;
    response_payload = error_payload (message p.last_error);
    usage = null;
    cost = none;
    model = str selector;
    upstream_model = (final p.attempts).upstream_model;
    provider_id = (final p.attempts).provider_id;
    attempts = p.attempts;
  }

  -- An exception of the log leaves the function.
  abbrev pub finish : World × Bool → Response → World × Forwarded
  finish (w, true) r = (w, returns r)
  finish (w, false) r = (w, raises)

  unfoldable pub conclude : ℕ → Str → Value → Finish → World × Forwarded
  conclude now selector request (unanswered p) =
      finish (log db now (failed_entry selector p) request (error_payload (message p.last_error)) p)
        (failed_response selector p)
  conclude now selector request (settled p s) =
      finish (log db now (settled_entry selector p s) request s.settlement.payload p)
        (settled_response selector p s)
  conclude now selector request (unprepared p id model e) = (
    p.world,
    returns (early 422 p.total_wait_ms (unsupported e) (str selector) model (some id) p.attempts),
  )
  conclude now selector request (raised p) = (p.world, raises)
  conclude now selector request (hung p) = (p.world, hangs)

  abbrev pub with_reservation :
      ℕ → Bool → World → Fields → Str → List (Str × Str) → Option ℕ → World × Forwarded
  with_reservation now is_test w payload selector targets none = (w, raises)
  with_reservation now is_test w payload selector targets (some reservation) =
      conclude now selector (stored is_test (sanitize (obj payload))) (
        try_targets ticks (endpoint adapter) http_reason trip 1 targets reservation selector payload
          (start w))

  abbrev pub with_targets : ℕ → Bool → World → Fields → Str → List (Str × Str) → World × Forwarded
  with_targets now is_test w payload selector [] =
      (w, returns (early 503 0 no_provider (str selector) [] none []))
  with_targets now is_test w payload selector (t ∷ ts) =
      with_reservation now is_test w payload selector (t ∷ ts) (estimate payload)

  -- A model that is not text leaves `resolve` by an `AttributeError`, which nothing catches here.
  abbrev pub with_route :
      ℕ → Bool → World → Fields → Result (Str × List RouteTarget) → World × Forwarded
  with_route now is_test w payload (err not_text) = (w, raises)
  with_route now is_test w payload (err e) = (
    w,
    returns (
        early 422 0 (unresolved e)
          (or_else (get_null (text "model") payload) (str (text "unknown"))) [] none []),
  )
  with_route now is_test w payload (ok (selector, route_targets)) =
      with_targets now is_test w payload selector (enabled_targets w.registry route_targets)

  unfoldable pub forward_chat_request : ℕ → Bool → World → Value → World × Forwarded
  forward_chat_request now is_test w (obj payload) =
      with_route now is_test w payload (resolve w.registry (get_null (text "model") payload))
  forward_chat_request now is_test w body =
      (w, returns (early 400 0 not_json (str (text "unknown")) [] none []))
