-- ===== src/Forward/Tests.antt =====
-- Forwarding of app/main.py at concrete inputs: a provider that is overloaded, is asked for another
-- model and answers.
use prismux.Prelude.{
  ℕ, ◌+◌, ◌≡◌, refl, false, Option, none, some, ℤ, List, [], ◌∷◌, Str, text, list_beq, text_eq,
  lookup, nat_eq, if◌then◌else◌, pos, round_div,
}
use prismux.Json.{Value, Fields, null, int, str, obj, end, field}
use prismux.QueueState
use prismux.Log.Store.{Database, committed, interrupted}
use prismux.Limiter
use prismux.Provider.Capacity
use prismux.Provider.Capacity.{acquired}
use prismux.Provider.Runtime.{Runtime}
use prismux.Provider.Runtime.Tests.{runtime}
use prismux.Provider.Registry.Tests.{registry}
use prismux.Forward.{
  World, Reply, answered, aborts, Trip, Outgoing, outgoing, Failure, Progress, start, raises,
  try_target, try_targets,
}
use prismux.Forward.Chat.{Adapter, endpoint}
use prismux.Forward.Gauges.{Settles, try_targets-Quiet, try_target-leaks}
use prismux.Forward.Attempts.{Follows, try_targets-Follows}
use prismux.Forward.EmbeddingsRecorded

abbrev world : World
world = record {
  registry = registry;
  queue = QueueState.empty;
  prices = [];
  store = record { requests = []; stats = []; attempts = []; next_id = 1 };
}

abbrev adapter : Adapter
adapter = record {
  prepare_request =
      λ config payload model. outgoing (record { url = config.base_url; body = obj payload });
  prepare_embeddings_request =
      λ config payload model. outgoing (record { url = config.base_url; body = obj payload });
  normalize_response = λ config body model. some body;
}

-- The driver takes integers only, and the commit of the second attempt is cut off.
abbrev as_integer : Value → Option ℤ
as_integer (int n) = some n
as_integer v = none

abbrev db : Database
db = record { as_integer = as_integer; commit = λ n. if nat_eq n 2 then interrupted else committed }

abbrev usage : Value
usage = obj (field (text "usage") (obj (field (text "prompt_tokens") (int (pos 3)) end)) end)

abbrev replies : ℕ → Reply
replies index = if nat_eq index 1 then answered 503 null else answered 200 usage

abbrev trip : ℕ → Outgoing → Trip
trip index o = record {
  entered_at = index;
  started = index;
  ended = index + 1;
  released_at = index + 2;
  reply = replies index;
}

abbrev cut_off : ℕ → Outgoing → Trip
cut_off index o = record (trip index o) { reply = aborts }

abbrev reason : ℕ → Str
reason code = text "HTTP"

abbrev message : Failure → Str
message f = text "failed"

abbrev estimate : Fields → Option ℕ
estimate payload = some 1

abbrev payload : Fields
payload = field (text "model") (str (text "fast")) end

abbrev targets : List (Str × Str)
targets = (text "groq", text "llama") ∷ (text "groq", text "m") ∷ []

try_targets-Quiet_example :
    Settles 1
      (endpoint adapter)
      reason
      trip
      world
      (try_targets 1 (endpoint adapter) reason trip 1 targets 1 (text "fast") payload (start world))
try_targets-Quiet_example =
    try_targets-Quiet 1 (endpoint adapter) reason trip 1 targets 1 (text "fast") payload
      (start world)

try_targets-Follows_example :
    Follows 1
      (endpoint adapter)
      reason
      trip
      1
      targets
      []
      (try_targets 1 (endpoint adapter) reason trip 1 targets 1 (text "fast") payload (start world))
try_targets-Follows_example =
    try_targets-Follows 1 (endpoint adapter) reason trip 1 (text "groq", text "llama")
      ((text "groq", text "m") ∷ []) 1 (text "fast") payload (start world)

groq_runtime : lookup (text "groq") registry.providers ≡ some runtime
unfolding text lookup list_beq
groq_runtime = refl

acquires : (Capacity.acquire 1 1 1 runtime.capacity).1 ≡ acquired 0
unfolding Capacity.acquire Capacity.reserve Capacity.take_from Limiter.try_acquire Limiter.new
    Capacity.new round_div Limiter.level Capacity.ticks_to_refill
acquires = refl

try_target-leaks_example :
    (q : Progress) × (x : Runtime) × (try_target 1
        (endpoint adapter)
        reason
        cut_off
        false
        1
        (text "groq")
        (text "llama")
        1
        (text "fast")
        payload
        (start world)
      ≡ raises q)
    × (lookup (text "groq") q.world.registry.providers ≡ some x)
    × (x.capacity.active ≡ 1)
unfolding Capacity.new
try_target-leaks_example =
    try_target-leaks 1 (endpoint adapter) reason cut_off false 1 (text "groq") (text "llama") 1
      (text "fast") payload (start world) runtime
      (record { url = runtime.config.base_url; body = obj payload }) 0 groq_runtime refl acquires
      refl
