-- ===== src/Forward/Recorded.antt =====
-- What `forward_chat_request` of app/main.py leaves in the log, on each way out.
use prismux.Prelude.{
  ℕ, ◌+◌, ◌≡◌, refl, ◌∙◌, Bool, true, false, Option, none, some, List, [], ◌∷◌, ℤ, Str, text_eq,
}
use prismux.Json.{Fields}
use prismux.Log.Store.{Entry, Store, Database}
use prismux.Log.Store.Saved.{}
use prismux.Provider.Capacity
use prismux.Provider.Capacity.{acquired, rejected, blocked, looping}
use prismux.Provider.Runtime.{Runtime, falls_back}
use prismux.Forward.{
  World, Reply, refused, no_connection, no_answer, request_failed, aborts, answered, Trip, Outgoing,
  Prepared, outgoing, adapter_error, breaks_off, Settlement, Endpoint, Progress, Verdict,
  falls_through, breaks, settles, cannot_prepare, raises, hangs, Finish, settle_with, on_reply,
  after_acquire, prepared, found, try_target, go_on, try_targets, config_of, on_runtime, is_more,
}
use prismux.Prelude.{Bool-cases, ◌⊎◌, inl, inr, ◌&&◌}
use prismux.Forward.Attempts.{end_of}
use prismux.Forward.Logged.{Recorded, Leaves}
use prismux.Forward.Chat
use prismux.Forward.Chat.{Response, stored}

abbrev pub world_of : Verdict → World
world_of (falls_through p) = p.world
world_of (breaks p) = p.world
world_of (settles p s) = p.world
world_of (cannot_prepare p id model e) = p.world
world_of (raises p) = p.world
world_of (hangs p) = p.world

module _ (ticks : ℕ) where
  settle_with-store :
      (i : ℕ) (id model : Str) (reservation wait_ms : ℕ) (t : Trip) (code : ℕ) (p : Progress)
      (s : Option Settlement)
      → (world_of (settle_with ticks i id model reservation wait_ms t code p s)).store
        ≡ p.world.store
  unfolding on_runtime
  settle_with-store i id model reservation wait_ms t code p none = refl
  settle_with-store i id model reservation wait_ms t code p (some s) = refl

  module _ (e : Endpoint) (http_reason : ℕ → Str) (trip : ℕ → Outgoing → Trip) where
    on_reply-store :
        (more : Bool) (i : ℕ) (r : Runtime) (id model : Str) (reservation wait_ms : ℕ) (t : Trip)
        (reply : Reply) (p : Progress)
        → (world_of (
            on_reply ticks e http_reason trip more i r id model reservation wait_ms t reply
              p)).store
          ≡ p.world.store
    unfolding on_reply on_runtime
    on_reply-store true i r id model reservation wait_ms t (refused reason) p = refl
    on_reply-store false i r id model reservation wait_ms t (refused reason) p = refl
    on_reply-store true i r id model reservation wait_ms t (no_connection name) p = refl
    on_reply-store false i r id model reservation wait_ms t (no_connection name) p = refl
    on_reply-store more i r id model reservation wait_ms t no_answer p = refl
    on_reply-store more i r id model reservation wait_ms t (request_failed name) p = refl
    on_reply-store more i r id model reservation wait_ms t aborts p = refl
    on_reply-store more i r id model reservation wait_ms t (answered code body) p =
        elim (Bool-cases (falls_back code && more)) [
          | inl passes ↦ rw passes refl
          | inr stays ↦ rw stays (
              settle_with-store i id model reservation wait_ms t code _
                (e.settle r.config model code body))
        ]

    after_acquire-store :
        (more : Bool) (i : ℕ) (r : Runtime) (id model : Str) (reservation : ℕ) (selector : Str)
        (t : Trip) (p : Progress) (o : Capacity.Outcome)
        → (world_of (
            after_acquire ticks e http_reason trip more i r id model reservation selector t p
              o)).store
          ≡ p.world.store
    after_acquire-store more i r id model reservation selector t p (acquired wait_ms) =
        on_reply-store more i r id model reservation wait_ms t t.reply _
    after_acquire-store more i r id model reservation selector t p rejected = refl
    after_acquire-store more i r id model reservation selector t p blocked = refl
    after_acquire-store more i r id model reservation selector t p looping = refl

    prepared-store :
        (more : Bool) (i : ℕ) (r : Runtime) (id model : Str) (reservation : ℕ) (selector : Str)
        (p : Progress) (o : Prepared)
        → (world_of
            (prepared ticks e http_reason trip more i r id model reservation selector p o)).store
          ≡ p.world.store
    unfolding on_runtime
    prepared-store more i r id model reservation selector p (adapter_error x) = refl
    prepared-store more i r id model reservation selector p breaks_off = refl
    prepared-store more i r id model reservation selector p (outgoing o) =
        after_acquire-store more i r id model reservation selector (trip i o) _
          (Capacity.acquire ticks reservation (trip i o).entered_at r.capacity).1

    found-store :
        (more : Bool) (i : ℕ) (id model : Str) (reservation : ℕ) (selector : Str) (payload : Fields)
        (p : Progress) (r : Option Runtime)
        → (world_of
            (found ticks e http_reason trip more i id model reservation selector payload p r)).store
          ≡ p.world.store
    found-store more i id model reservation selector payload p none = refl
    found-store more i id model reservation selector payload p (some r) =
        prepared-store more i r id model reservation selector p (e.prepare r.config payload model)

    go_on-store :
        (v : Verdict) (k : Progress → Finish) (s : Store)
        → (world_of v).store ≡ s
        → ((q : Progress) → (end_of (k q)).world.store ≡ q.world.store)
        → (end_of (go_on ticks e http_reason trip v k)).world.store ≡ s
    go_on-store (falls_through q) k s h next = next q ∙ h
    go_on-store (breaks q) k s h next = h
    go_on-store (settles q x) k s h next = h
    go_on-store (cannot_prepare q id model x) k s h next = h
    go_on-store (raises q) k s h next = h
    go_on-store (hangs q) k s h next = h

    -- The loop itself does not write to the log.
    pub try_targets-store :
        (i : ℕ) (targets : List (Str × Str)) (reservation : ℕ) (selector : Str) (payload : Fields)
        (p : Progress)
        → (end_of (
            try_targets ticks e http_reason trip i targets reservation selector payload
              p)).world.store
          ≡ p.world.store
    unfolding try_targets try_target
    try_targets-store i [] reservation selector payload p = refl
    try_targets-store i ((id, model) ∷ ts) reservation selector payload p =
        go_on-store
          (found ticks e http_reason trip (is_more ticks e http_reason trip ts) i id model
            reservation selector payload p (config_of id p.world))
          (λ q. try_targets ticks e http_reason trip (i + 1) ts reservation selector payload q)
          p.world.store
          (found-store (is_more ticks e http_reason trip ts) i id model reservation selector payload
            p (config_of id p.world))
          (λ q. try_targets-store (i + 1) ts reservation selector payload q)

-- The answers that are given before a provider's answer or failure is known.
abbrev pub IsEarly : ℕ → Type 0
IsEarly code = (code ≡ 400) ⊎ ((code ≡ 422) ⊎ (code ≡ 503))

-- The row tells of the response what the response tells its caller.
pub record Tells (entry : Entry (Option ℤ)) (r : Response) : Type 0 where
  pub status : entry.status_code ≡ r.logged_status_code
  pub wait : entry.wait_ms ≡ r.wait_ms
  pub provider : entry.provider_id ≡ r.provider_id

abbrev pub Logs : Database → Store → World → Chat.Forwarded → Type 0
Logs db s w (Chat.returns r) =
    ((entry : Entry (Option ℤ)) × Recorded s w.store entry r.response_payload r.attempts
      × Tells entry r)
    ⊎ ((w.store ≡ s) × IsEarly r.status_code)
Logs db s w Chat.raises = Leaves db s w.store
Logs db s w Chat.hangs = w.store ≡ s
