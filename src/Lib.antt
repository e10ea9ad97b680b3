-- ===== src/Lib.antt =====
-- Prismux is a gateway in front of language-model providers (app/ of the repository, Python). A
-- request names a model; the gateway finds the route's targets, waits for the capacity of each
-- provider in turn, calls it, falls back to the next one where the failure allows it, and records the
-- request, its cost and its attempts in the database.
--
-- The parts and the files that model them:
-- - Limiter: app/limiter.py, `TokenBucket`. `try_acquire` is one pass of the loop of `acquire` under
--   the lock, `acquire` the loop with its sleeps, with `refund` and `reconfigure`. Bucket contents are
--   whole numbers of small units, so that a refill is exact.
-- - Provider/Capacity: app/multi_provider.py, `CapacityController`: request bucket, token bucket,
--   semaphore and gauges, with `acquire` (`reserve` is its loop on chunks) and `release`.
-- - Provider/Runtime, Provider/Registry, Provider/Estimate, Provider/Config: app/multi_provider.py,
--   `ProviderRuntime`, `ProviderRegistry`, the token estimates and the settings; and
--   `provider_scoped_payload` of app/main.py.
-- - Forward: app/main.py, `forward_chat_request` (Forward/Chat) and `forward_embeddings_request`
--   (Forward/Embeddings). `World` is `app.state` with the queue gauge; `try_targets` is the loop on the
--   targets, `on_reply` its body from the call on. It calls the registry, the capacity, the queue
--   gauge, the pricing and the log as the code does.
-- - Catalog: app/db.py, the tables of providers, models, routes and prices. Catalog/Reload:
--   `reload_registry` of app/main.py, which builds the registry from them. Catalog/Handlers: the
--   handlers of app/main.py that change them; each writes the tables and reloads the registry.
-- - Adapter: app/multi_provider.py, the adapters that Forward calls. Adapter/Reasoning has the
--   reasoning controls, Adapter/OpenAi and Adapter/Anthropic the requests, Adapter/Answer and
--   Adapter/AnthropicStream Anthropic's answers and streams, Adapter/Make `make_adapter`.
-- - Stream: app/main.py, `consume` and `usage` of `StreamAccumulator`, on the lines of a chunk.
--   Stream/Payload: its `response_payload`, and `extract_test_response_content`. Stream/SseError:
--   `extract_sse_error`, on the lines of a text.
-- - QueueState: app/queue_state.py, the gauge of waiting requests.
-- - Log/Status, Log/Charts, Log/Store: app/db.py, the classification of requests, the chart queries
--   and the tables that forwarding writes to.
-- - Auth/Boundary: app/main.py, the middleware `security_boundary`, with the roles of app/auth.py.
--   Auth/Throttle: app/auth.py, `LoginThrottle`. Auth/Keys: app/auth.py, the text of machine keys.
-- - Pricing: app/pricing.py and `provider_cost_breakdown`, `provider_cost` of app/main.py.
-- - Sanitize: app/sanitize.py. ChartRanges: app/chart_ranges.py.
-- - Json: the values of `json.loads`. Prelude: the shared lists, dictionaries, text and integers.
--
-- Fuel: `Limiter.acquire` is a loop on the readings of the clock at its passes, and it returns at the
-- first pass at which enough has come in. `Provider.Capacity.reserve` is a loop on fuel: as many
-- passes as tokens reserved are enough, as its results state, and it does not end at all where the
-- bucket holds less than one token.
--
-- Parameters: the clock's readings, the answers of the HTTP client, the provider's adapter, Python's
-- texts of numbers and exceptions, the service that verifies sessions and machine keys, and the
-- database: which of a request's transactions are lost, what the driver makes of a value for an
-- INTEGER column, which tables it takes from a handler, and which audit events. Payloads are kept as
-- values, not as JSON text. Prices, costs and the contents of buckets are integers in place of
-- floating-point numbers. A run of a request is that of one request: what other
-- requests do between its steps is not part of it, except in the results on histories of calls.
--
-- Not modelled: the rest of streaming, the verification of sessions and machine keys, the outbound
-- policy, the discovery of models, the handlers of settings and access, failing reads of the
-- database, and the searches and purges of the log, migrations, scripts, and the user interface.
pub mod Adapter
pub mod Auth
pub mod Catalog
pub mod ChartRanges
pub mod Forward
pub mod Json
pub mod Limiter
pub mod Log
pub mod Prelude
pub mod Pricing
pub mod Provider
pub mod QueueState
pub mod Sanitize
pub mod Stream
