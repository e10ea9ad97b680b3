-- ===== src/Forward.antt =====
-- The forwarding of one request in app/main.py: `forward_chat_request`, in its child Chat, and
-- `forward_embeddings_request`, in its child Embeddings, try the providers of a route in turn.
-- This file has what the two functions share: the state, the attempts and the loop on the targets.
-- A provider in service is named by its id, under which `app.state.registry` holds it. The run is
-- that of one request: what others do to the state in between is not part of it.
pub mod Chat
pub mod Embeddings
pub mod Gauges
pub mod Attempts
pub mod Logged
pub mod Recorded
pub mod EmbeddingsRecorded
pub mod Tests
use prismux.Prelude.{
  ℕ, suc, ◌+◌, ◌-◌, ◌*◌, Bool, true, false, not, ◌&&◌, Option, none, some, List, [], ◌∷◌, ◌++◌,
  length, Dict, lookup, insert, has_key, Str, text, text_eq, ℤ, round_div, if◌then◌else◌,
}
use prismux.Json.{Value, Fields, null, str, obj, end, field, as_int}
use prismux.Sanitize.{sanitize}
use prismux.Pricing.{Prices, Breakdown, provider_cost_breakdown}
use prismux.QueueState
use prismux.QueueState.{QueueState}
use prismux.Log.Status.{
  ErrorType, connection, blocked_destination, timeout, unknown, classify_error_type,
}
use prismux.Log.Store.{Database, Entry, Attempt, Store, insert_request, save_attempts}
use prismux.Provider.Config.{ProviderConfig, RouteTarget}
use prismux.Provider.Capacity
use prismux.Provider.Capacity.{acquired, rejected, blocked, looping}
use prismux.Provider.Runtime.{
  Runtime, degraded, offline, HealthError, blocked_by_policy, timed_out, exception, falls_back,
  mark_health, observe_status,
}
use prismux.Provider.Runtime
use prismux.Provider.Registry.{Registry, ResolveError}

-- `app.state` and `queue_state`.
pub record World : Type 0 where
  pub registry : Registry
  pub queue : QueueState
  pub prices : Prices
  pub store : Store

-- What `client.post` does: a refusal by the outbound policy, the exceptions of the HTTP client, or
-- an answer with its body; `aborts` is any other exception, a cancellation among them.
pub data Reply : Type 0 where
  refused : Str → Reply
  no_connection : Str → Reply
  no_answer : Reply
  request_failed : Str → Reply
  aborts : Reply
  answered : ℕ → Value → Reply

-- One call of a provider, with the clock's readings: when it asks for capacity, when the call
-- starts, when it ends, and when its capacity is given back.
pub record Trip : Type 0 where
  pub entered_at : ℕ
  pub started : ℕ
  pub ended : ℕ
  pub released_at : ℕ
  pub reply : Reply

pub record Outgoing : Type 0 where
  pub url : Str
  pub body : Value

-- The `AdapterError` that a request cannot be put in the provider's format, or any other exception.
pub data Prepared : Type 0 where
  outgoing : Outgoing → Prepared
  adapter_error : Str → Prepared
  breaks_off : Prepared

-- What is kept of an answer.
pub record Settlement : Type 0 where
  pub payload : Value
  pub usage : Value
  pub prompt_tokens : Value
  pub completion_tokens : Value
  pub actual_tokens : Option ℤ

-- What differs between the two kinds of request; `settle` is `none` when the code raises.
pub record Endpoint : Type 0 where
  pub prepare : ProviderConfig → Fields → Str → Prepared
  pub settle : ProviderConfig → Str → ℕ → Value → Option Settlement

-- The texts of `error`, by what they are built from.
pub data Failure : Type 0 where
  not_json : Failure
  unresolved : ResolveError → Failure
  no_provider : Failure
  unsupported : Str → Failure
  all_failed : Failure
  policy_blocked : Failure
  connection_failed : Failure
  timed_out_after : ℕ → Failure
  sending_failed : Failure

-- The local variables of the loop.
pub record Progress : Type 0 where
  pub world : World
  pub attempts : List Attempt
  pub last_error : Failure
  pub total_wait_ms : ℕ

pub record Settled : Type 0 where
  pub provider_id : Str
  pub upstream_model : Str
  pub status_code : ℕ
  pub response_ms : ℕ
  pub settlement : Settlement
  pub cost : Breakdown

-- How one target ends: `continue`, `break`, the return of an answer, the return of an
-- `AdapterError`, an exception that leaves the function, or no end.
pub data Verdict : Type 0 where
  falls_through : Progress → Verdict
  breaks : Progress → Verdict
  settles : Progress → Settled → Verdict
  cannot_prepare : Progress → Str → Str → Str → Verdict
  raises : Progress → Verdict
  hangs : Progress → Verdict

-- How the loop ends: after its last target or a `break`, or as one of the others.
pub data Finish : Type 0 where
  unanswered : Progress → Finish
  settled : Progress → Settled → Finish
  unprepared : Progress → Str → Str → Str → Finish
  raised : Progress → Finish
  hung : Progress → Finish

abbrev pub adjust : (Runtime → Runtime) → Str → Option Runtime → Dict Str Runtime → Dict Str Runtime
adjust f id none d = d
adjust f id (some r) d = insert id (f r) d

-- A change of the runtime that the registry holds under an id.
unfoldable pub on_runtime : (Runtime → Runtime) → Str → World → World
on_runtime f id w = record w {
  registry = record w.registry {
    providers = adjust f id (lookup id w.registry.providers) w.registry.providers;
  };
}

abbrev pub with_world : (World → World) → Progress → Progress
with_world f p = record p { world = f p.world }

abbrev pub error_payload : Str → Value
error_payload message = obj (field (text "error") (str message) end)

abbrev pub config_of : Str → World → Option Runtime
config_of id w = lookup id w.registry.providers

-- `fallback_reason=... if index < len(targets) else None`
abbrev pub if_more : Bool → Str → Option Str
if_more true reason = some reason
if_more false reason = none

module _ (ticks : ℕ) where
  abbrev pub elapsed_ms : Trip → ℕ
  elapsed_ms t = round_div ((t.ended - t.started) * 1000) ticks

  unfoldable pub give_back : ℕ → Option ℤ → ℕ → Runtime → Runtime
  give_back reserved actual now r = record r {
    capacity = Capacity.release ticks reserved actual now r.capacity;
  }

  -- `await provider.capacity.release(reserved, actual)`
  abbrev pub released : Str → ℕ → Option ℤ → Trip → Progress → Progress
  released id reservation actual t p =
      with_world (on_runtime (give_back reservation actual t.released_at) id) p

  abbrev pub marked : Str → Runtime.Health → HealthError → Trip → Progress → Progress
  marked id health error t p = with_world (on_runtime (mark_health health error t.ended) id) p

  abbrev pub noted : Attempt → Progress → Progress
  noted a p = record p { attempts = p.attempts ++ (a ∷ []) }

  abbrev pub attempt : ℕ → Str → Str → ℕ → Trip → Option ℕ → Option ErrorType → Option Str → Attempt
  attempt index id model wait_ms t status_code error_type fallback_reason = record {
    attempt_number = index;
    provider_id = id;
    upstream_model = model;
    wait_ms = wait_ms;
    response_ms = some (elapsed_ms t);
    status_code = status_code;
    error_type = error_type;
    fallback_reason = fallback_reason;
  }

  abbrev pub next_or_break : Bool → Progress → Verdict
  next_or_break true p = falls_through p
  next_or_break false p = breaks p

  abbrev pub failed :
      ℕ
      → Str
      → Str
      → ℕ
      → ℕ
      → Trip
      → Runtime.Health
      → HealthError
      → Failure
      → ErrorType
      → Option Str
      → Progress
      → Progress
  failed index id model reservation wait_ms t health error failure error_type reason p =
      let q = marked id health error t (released id reservation none t p) in
      noted (attempt index id model wait_ms t none (some error_type) reason)
        (record q { last_error = failure })

  abbrev pub settle_with : ℕ → Str → Str → ℕ → ℕ → Trip → ℕ → Progress → Option Settlement → Verdict
  settle_with index id model reservation wait_ms t code p none = raises p
  settle_with index id model reservation wait_ms t code p (some s) =
      settles
        (noted (attempt index id model wait_ms t (some code) (classify_error_type (some code)) none)
          (released id reservation s.actual_tokens t p))
        (record {
          provider_id = id;
          upstream_model = model;
          status_code = code;
          response_ms = elapsed_ms t;
          settlement = s;
          cost =
              provider_cost_breakdown p.world.prices id model (as_int s.prompt_tokens)
                (as_int s.completion_tokens);
        })

  module _ (endpoint : Endpoint) (http_reason : ℕ → Str) (trip : ℕ → Outgoing → Trip) where
    -- The body of the loop from `client.post` on; `more` is `index < len(targets)`.
    unfoldable pub on_reply :
        Bool → ℕ → Runtime → Str → Str → ℕ → ℕ → Trip → Reply → Progress → Verdict
    on_reply more index r id model reservation wait_ms t (refused reason) p = next_or_break more (
        failed index id model reservation wait_ms t offline blocked_by_policy policy_blocked
          blocked_destination (if_more more reason) p)
    on_reply more index r id model reservation wait_ms t (no_connection name) p =
        next_or_break more (
          failed index id model reservation wait_ms t offline (exception name) connection_failed
            connection (if_more more name) p)
    on_reply more index r id model reservation wait_ms t no_answer p = breaks (
        failed index id model reservation wait_ms t degraded (timed_out r.config.timeout_seconds)
          (timed_out_after r.config.timeout_seconds) timeout none p)
    on_reply more index r id model reservation wait_ms t (request_failed name) p = breaks (
        failed index id model reservation wait_ms t offline (exception name) sending_failed unknown
          none p)
    on_reply more index r id model reservation wait_ms t aborts p = raises p
    on_reply more index r id model reservation wait_ms t (answered code body) p =
        let seen = with_world (on_runtime (observe_status code t.ended) id) p in
        if falls_back code && more
        then falls_through (
            noted
              (attempt index id model wait_ms t (some code) (classify_error_type (some code))
                (some (http_reason code)))
              (released id reservation none t seen))
        else settle_with index id model reservation wait_ms t code seen
            (endpoint.settle r.config model code body)

    -- `queue_state.dec` in the `finally` block, and the sum of the waiting times.
    abbrev pub after_acquire :
        Bool → ℕ → Runtime → Str → Str → ℕ → Str → Trip → Progress → Capacity.Outcome → Verdict
    after_acquire more index r id model reservation selector t p (acquired wait_ms) =
        let q = with_world (λ w. record w { queue = QueueState.dec selector w.queue }) p in
        on_reply more index r id model reservation wait_ms t t.reply
          (record q { total_wait_ms = q.total_wait_ms + wait_ms })
    after_acquire more index r id model reservation selector t p rejected =
        raises (with_world (λ w. record w { queue = QueueState.dec selector w.queue }) p)
    after_acquire more index r id model reservation selector t p blocked = hangs p
    after_acquire more index r id model reservation selector t p looping = hangs p

    abbrev pub enqueue : Str → World → World
    enqueue selector w = record w { queue = QueueState.inc selector w.queue }

    abbrev pub with_capacity : Capacity.Capacity → Runtime → Runtime
    with_capacity c r = record r { capacity = c }

    abbrev pub entered :
        Bool
        → ℕ
        → Runtime
        → Str
        → Str
        → ℕ
        → Str
        → Trip
        → Progress
        → Capacity.Capacity × Capacity.Outcome
        → Verdict
    entered more index r id model reservation selector t p (c, o) =
        after_acquire more index r id model reservation selector t
          (with_world (on_runtime (with_capacity c) id) (with_world (enqueue selector) p)) o

    abbrev pub prepared : Bool → ℕ → Runtime → Str → Str → ℕ → Str → Progress → Prepared → Verdict
    prepared more index r id model reservation selector p (adapter_error e) =
        cannot_prepare p id model e
    prepared more index r id model reservation selector p breaks_off = raises p
    prepared more index r id model reservation selector p (outgoing o) =
        let t = trip index o in
        entered more index r id model reservation selector t p
          (Capacity.acquire ticks reservation t.entered_at r.capacity)

    -- The registry has every target of `enabled_targets`, so `none` does not come up.
    abbrev pub found : Bool → ℕ → Str → Str → ℕ → Str → Fields → Progress → Option Runtime → Verdict
    found more index id model reservation selector payload p none = raises p
    found more index id model reservation selector payload p (some r) =
        prepared more index r id model reservation selector p
          (endpoint.prepare r.config payload model)

    unfoldable pub try_target : Bool → ℕ → Str → Str → ℕ → Str → Fields → Progress → Verdict
    try_target more index id model reservation selector payload p =
        found more index id model reservation selector payload p (config_of id p.world)

    abbrev pub is_more : List (Str × Str) → Bool
    is_more [] = false
    is_more (t ∷ ts) = true

    abbrev pub go_on : Verdict → (Progress → Finish) → Finish
    go_on (falls_through p) k = k p
    go_on (breaks p) k = unanswered p
    go_on (settles p s) k = settled p s
    go_on (cannot_prepare p id model e) k = unprepared p id model e
    go_on (raises p) k = raised p
    go_on (hangs p) k = hung p

    -- `for index, (provider, upstream_model) in enumerate(targets, start=1)`
    unfoldable pub try_targets : ℕ → List (Str × Str) → ℕ → Str → Fields → Progress → Finish
    try_targets index [] reservation selector payload p = unanswered p
    try_targets index ((id, model) ∷ targets) reservation selector payload p =
        go_on (try_target (is_more targets) index id model reservation selector payload p)
          (λ q. try_targets (index + 1) targets reservation selector payload q)

abbrev pub start : World → Progress
start w = record { world = w; attempts = []; last_error = all_failed; total_wait_ms = 0 }

-- `selector if selector in app.state.registry.routes else None`
abbrev pub route_alias : Str → World → Option Str
route_alias selector w = if has_key selector w.registry.routes then some selector else none

-- The row of an answer.
unfoldable pub settled_entry : Str → Progress → Settled → Entry Value
settled_entry selector p s = record {
  model = selector;
  status_code = some s.status_code;
  wait_ms = p.total_wait_ms;
  prompt_tokens = s.settlement.prompt_tokens;
  completion_tokens = s.settlement.completion_tokens;
  model_response_ms = some s.response_ms;
  time_to_first_token_ms = none;
  input_cost = s.cost.input;
  output_cost = s.cost.output;
  estimated_cost = s.cost.total;
  error_type = classify_error_type (some s.status_code);
  provider_id = some s.provider_id;
  upstream_model = some s.upstream_model;
  route_alias = route_alias selector p.world;
  attempt_count = length p.attempts;
}

-- The end of `attempts`, with `{"provider_id": None, "upstream_model": "", "response_ms": 0}` for
-- none; the `error_type` of that is "unknown".
pub record Final : Type 0 where
  pub provider_id : Option Str
  pub upstream_model : Str
  pub response_ms : Option ℕ
  pub error_type : Option ErrorType

unfoldable pub final : List Attempt → Final
final [] = record {
  provider_id = none;
  upstream_model = [];
  response_ms = some 0;
  error_type = some unknown;
}
final (a ∷ []) = record {
  provider_id = some a.provider_id;
  upstream_model = a.upstream_model;
  response_ms = a.response_ms;
  error_type = a.error_type;
}
final (a ∷ b ∷ rest) = final (b ∷ rest)

unfoldable pub failed_entry : Str → Progress → Entry Value
failed_entry selector p =
    let f = final p.attempts in
    record {
      model = selector;
      status_code = none;
      wait_ms = p.total_wait_ms;
      prompt_tokens = null;
      completion_tokens = null;
      model_response_ms = f.response_ms;
      time_to_first_token_ms = none;
      input_cost = none;
      output_cost = none;
      estimated_cost = none;
      error_type = f.error_type;
      provider_id = f.provider_id;
      upstream_model = some f.upstream_model;
      route_alias = route_alias selector p.world;
      attempt_count = length p.attempts;
    }

-- `save_attempts`, after an insertion that returned the row's id.
abbrev pub with_attempts : Database → ℕ → Progress → Option ℕ × Store → World × Bool
with_attempts db now p (none, store) = (record p.world { store = store }, false)
with_attempts db now p (some row_id, store) =
    let (store', complete) = save_attempts db 1 now row_id p.attempts store in
    (record p.world { store = store' }, complete)

-- `db.insert_request` and `save_attempts`; `false` is an exception.
unfoldable pub log : Database → ℕ → Entry Value → Value → Value → Progress → World × Bool
log db now entry request response p =
    with_attempts db now p (insert_request db now entry request response p.world.store)
