-- ===== src/Provider/Capacity/Tests.antt =====
-- Runs of `CapacityController` of app/multi_provider.py, and the theorems at concrete inputs.
use prismux.Prelude.{ℕ, ◌+◌, ◌-◌, ◌*◌, ◌≤◌, ◌≡◌, refl, true, some, [], text, round_div, arith, pos}
use prismux.Limiter
use prismux.Limiter.{TokenBucket, try_acquire, level}
use prismux.Provider.Config.{ProviderConfig, openai_compatible}
use prismux.Provider.Capacity.{
  ticks_to_refill, new, reserve, reserved, spins, acquire, acquired, release, take_from, token,
}
use prismux.Provider.Capacity.Chunks.{reserve-reserves, reserve-spins}
use prismux.Provider.Capacity.Slots.{
  Moves, here, next, entered, acquire-Moves, release-acquire, active-le-max_concurrency,
}

-- One tick to the second, so 60 units to the token: 100 requests a minute, 300 tokens a minute in
-- bursts of 2, and one request at a time.
abbrev pub config : ProviderConfig
config = record {
  id = text "groq";
  name = text "Groq";
  preset = text "groq";
  adapter = openai_compatible;
  base_url = text "https://api.groq.com/openai/v1";
  models_url = [];
  enabled = true;
  is_default = true;
  default_model = text "llama";
  rate_limit_rpm = some 100;
  request_burst = 60;
  tokens_per_minute = some 300;
  token_burst = some 120;
  max_concurrency = some 1;
  timeout_seconds = 120;
  anthropic_version = text "2023-06-01";
  headers = [];
}

abbrev tokens : TokenBucket
tokens = record { rate = 300; capacity = 120; tokens = 120; last_refill = 0 }

-- Five tokens in chunks of two, two and one.
five_tokens :
    reserve 1 6 5 10 tokens
    ≡ reserved (record { rate = 300; capacity = 120; tokens = 60; last_refill = 12 }) 12
unfolding reserve take_from try_acquire level ticks_to_refill
five_tokens = refl

first_request : (acquire 1 5 10 (new config 0)).1 ≡ acquired 2000
unfolding acquire reserve take_from try_acquire new Limiter.new round_div ticks_to_refill
first_request = refl

reserve-reserves_example :
    (now' : ℕ) × (b' : TokenBucket) × (reserve 1 6 5 10 tokens ≡ reserved b' now')
    × (10 ≤ now')
    × (5 * token 1 + b'.tokens ≤ 120 + (now' - 0) * 300)
reserve-reserves_example =
    reserve-reserves 1 5 10 tokens (omega arith) (omega arith) (omega arith) (omega arith)

reserve-spins_example : reserve 1 100 5 10 (record tokens { capacity = 59 }) ≡ spins
reserve-spins_example =
    reserve-spins 1 100 5 10 (record tokens { capacity = 59 }) (omega arith) (omega arith)

acquire-Moves_example : let r = acquire 1 5 10 (new config 0) in Moves (new config 0) r.0 r.1
acquire-Moves_example = acquire-Moves 1 5 10 (new config 0)

release-acquire_example :
    let d = release 1 5 (some (pos 3)) 20 (acquire 1 5 10 (new config 0)).0 in
    (d.queued ≡ (new config 0).queued)
    × (d.active ≡ (new config 0).active)
    × (d.semaphore ≡ (new config 0).semaphore)
release-acquire_example =
    release-acquire 1 5 10 5 20 2000 (some (pos 3)) (new config 0) first_request

active-le-max_concurrency_example : (acquire 1 5 10 (new config 0)).0.active ≤ 1
active-le-max_concurrency_example =
    active-le-max_concurrency 1 config 0 1 refl (next here (entered 5 10 _ _ refl))
