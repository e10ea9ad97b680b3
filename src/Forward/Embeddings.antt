-- ===== src/Forward/Embeddings.antt =====
-- `forward_embeddings_request` of app/main.py.
use prismux.Prelude.{
  ℕ, Bool, true, false, Option, none, some, List, [], ◌∷◌, Str, text, text_eq, ℤ, pos,
}
use prismux.Json.{Value, Fields, null, bool, int, float, obj, get_null, as_int}
use prismux.Sanitize.{sanitize}
use prismux.Log.Store.{Database, Attempt}
use prismux.Provider.Config.{ProviderConfig, RouteTarget}
use prismux.Provider.Registry.{not_text, Result, ok, err, resolve, enabled_targets}
use prismux.Forward.{
  World, Trip, Outgoing, Settlement, Endpoint, Failure, not_json, unresolved, no_provider,
  unsupported, Finish, unanswered, settled, unprepared, raised, hung, try_targets, start,
  settled_entry, failed_entry, log, error_payload,
}
use prismux.Forward.Chat.{Adapter, sanitized, usage_of, tokens_of}

pub record Response : Type 0 where
  pub status_code : ℕ
  pub error : Option Failure
  pub response_payload : Value
  pub attempts : List Attempt

pub data Forwarded : Type 0 where
  returns : Response → Forwarded
  raises : Forwarded
  hangs : Forwarded

-- What `release` makes of the prompt tokens: without a token bucket it does not look at them, and
-- with one it compares them, which raises for what is no number. A fraction is cut off.
abbrev pub actual_of : Option ℕ → Value → Option (Option ℤ)
actual_of none v = some (as_int v)
actual_of (some rate) null = some none
actual_of (some rate) (bool b) = some (as_int (bool b))
actual_of (some rate) (int n) = some (some n)
actual_of (some rate) (float x) = some (some x.truncated)
actual_of (some rate) v = none

abbrev pub settled_with : Value → Option (Option ℤ) → Option Settlement
settled_with payload none = none
settled_with payload (some actual) = some (record {
  payload = payload;
  usage = usage_of payload;
  prompt_tokens = tokens_of (text "prompt_tokens") (usage_of payload);
  completion_tokens = int (pos 0);
  actual_tokens = actual;
})

unfoldable pub settle_embeddings : ProviderConfig → Value → Option Settlement
settle_embeddings config payload =
    settled_with payload
      (actual_of config.tokens_per_minute (tokens_of (text "prompt_tokens") (usage_of payload)))

abbrev pub endpoint : Adapter → Endpoint
endpoint adapter = record {
  prepare = adapter.prepare_embeddings_request;
  settle = λ config model code body. settle_embeddings config (sanitized body);
}

module _ (db : Database) (ticks : ℕ) (adapter : Adapter) (estimate : Fields → ℕ)
    (message : Failure → Str) (http_reason : ℕ → Str) (trip : ℕ → Outgoing → Trip) where
  abbrev pub refusal : ℕ → Failure → List Attempt → Response
  refusal code failure attempts = record {
    status_code = code;
    error = some failure;
    response_payload = error_payload (message failure);
    attempts = attempts;
  }

  -- An exception of the log leaves the function.
  abbrev pub finish : World × Bool → Response → World × Forwarded
  finish (w, true) r = (w, returns r)
  finish (w, false) r = (w, raises)

  unfoldable pub conclude : ℕ → Str → Value → Finish → World × Forwarded
  conclude now selector request (unanswered p) =
      finish (log db now (failed_entry selector p) request (error_payload (message p.last_error)) p)
        (refusal 502 p.last_error p.attempts)
  conclude now selector request (settled p s) =
      finish (log db now (settled_entry selector p s) request s.settlement.payload p) (record {
        status_code = s.status_code;
        error = none;
        response_payload = s.settlement.payload;
        attempts = p.attempts;
      })
  conclude now selector request (unprepared p id model e) =
      (p.world, returns (refusal 422 (unsupported e) p.attempts))
  conclude now selector request (raised p) = (p.world, raises)
  conclude now selector request (hung p) = (p.world, hangs)

  abbrev pub with_targets : ℕ → World → Fields → Str → List (Str × Str) → World × Forwarded
  with_targets now w payload selector [] = (w, returns (refusal 503 no_provider []))
  with_targets now w payload selector (t ∷ ts) = conclude now selector (sanitize (obj payload)) (
      try_targets ticks (endpoint adapter) http_reason trip 1 (t ∷ ts) (estimate payload) selector
        payload (start w))

  abbrev pub with_route : ℕ → World → Fields → Result (Str × List RouteTarget) → World × Forwarded
  with_route now w payload (err not_text) = (w, raises)
  with_route now w payload (err e) = (w, returns (refusal 422 (unresolved e) []))
  with_route now w payload (ok (selector, route_targets)) =
      with_targets now w payload selector (enabled_targets w.registry route_targets)

  unfoldable pub forward_embeddings_request : ℕ → World → Value → World × Forwarded
  forward_embeddings_request now w (obj payload) =
      with_route now w payload (resolve w.registry (get_null (text "model") payload))
  forward_embeddings_request now w body = (w, returns (refusal 400 not_json []))
