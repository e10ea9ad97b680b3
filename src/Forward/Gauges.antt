-- ===== src/Forward/Gauges.antt =====
-- The gauges and the capacity of the providers after a request of app/main.py was forwarded.
use prismux.Prelude.{
  ℕ, ◌+◌, ◌≡◌, refl, sym, ap, ◌∙◌, Bool, true, false, Bool-cases, Option, none, some, List, [], ◌∷◌,
  Dict, lookup, lookup-insert, Str, text_eq, ◌==◌, eq_iff, eq_refl, ℤ, arith, inl, inr, ◌&&◌,
  if◌then◌else◌,
}
use prismux.Json.{Fields}
use prismux.QueueState.{QueueState, queued_for, inc, dec}
use prismux.Provider.Capacity
use prismux.Provider.Capacity.{Capacity, acquired, rejected, blocked, looping}
use prismux.Provider.Capacity.Slots.{acquire-Moves, release-acquire, Moves}
use prismux.Provider.Runtime
use prismux.Provider.Runtime.{Runtime, HealthError, falls_back, mark_health, observe_status}
use prismux.Provider.Runtime.Observed.{observe_status-health}
use prismux.Forward.{
  World, Reply, refused, no_connection, no_answer, request_failed, aborts, answered, Trip, Outgoing,
  Prepared, outgoing, adapter_error, breaks_off, Settlement, Endpoint, Progress, Verdict,
  falls_through, breaks, settles, cannot_prepare, raises, hangs, Finish, unanswered, settled,
  unprepared, raised, hung, settle_with, on_reply, after_acquire, prepared, found, try_target,
  go_on, try_targets, is_more, config_of, on_runtime, adjust, give_back, enqueue,
}

-- The gauges of a provider and its free slots.
abbrev pub gauges : Option Runtime → Option (ℕ × (ℕ × Option ℕ))
gauges none = none
gauges (some r) = some (r.capacity.queued, (r.capacity.active, r.capacity.semaphore))

-- The same requests wait and run, at every model and provider.
pub record Quiet (before after : World) : Type 0 where
  pub waiting : (model : Str) → queued_for model after.queue ≡ queued_for model before.queue
  pub all_waiting : after.queue.global_queued ≡ before.queue.global_queued
  pub capacity :
      (id : Str)
      → gauges (lookup id after.registry.providers) ≡ gauges (lookup id before.registry.providers)

Quiet-refl : (w : World) → Quiet w w
Quiet-refl w = record { waiting = λ m. refl; all_waiting = refl; capacity = λ id. refl }

Quiet-trans : (u v w : World) → Quiet u v → Quiet v w → Quiet u w
Quiet-trans u v w a b = record {
  waiting = λ m. b.waiting m ∙ a.waiting m;
  all_waiting = b.all_waiting ∙ a.all_waiting;
  capacity = λ id. b.capacity id ∙ a.capacity id;
}

abbrev applied : (Runtime → Runtime) → Option Runtime → Option Runtime
applied f none = none
applied f (some r) = some (f r)

lookup-on_runtime :
    (f : Runtime → Runtime) (id j : Str) (w : World)
    → lookup j (on_runtime f id w).registry.providers ≡ (
        if id == j
        then applied f (lookup id w.registry.providers)
        else lookup j w.registry.providers)
unfolding on_runtime
lookup-on_runtime f id j w = adjusted w.registry.providers (lookup id w.registry.providers) refl
  where
    adjusted :
        (d : Dict Str Runtime) (o : Option Runtime)
        → lookup id d ≡ o
        → lookup j (adjust f id o d) ≡ (if id == j then applied f o else lookup j d)
    adjusted d none h = ground (arith, h, eq_iff id j)
    adjusted d (some r) h = lookup-insert j id (f r) d

-- The state while one request is at the provider `id`, whose runtime is `x`; the others are as in
-- `before`.
pub record Held (before now : World) (id : Str) (x : Runtime) (q : QueueState) : Type 0 where
  pub own : lookup id now.registry.providers ≡ some x
  pub others :
      (j : Str)
      → (id == j) ≡ false
      → lookup j now.registry.providers ≡ lookup j before.registry.providers
  pub queue : now.queue ≡ q

pub Held-on_runtime :
    (before now : World) (id : Str) (x : Runtime) (q : QueueState) (f : Runtime → Runtime)
    → Held before now id x q
    → Held before (on_runtime f id now) id (f x) q
unfolding on_runtime
Held-on_runtime before now id x q f h = record {
  own = lookup-on_runtime f id id now ∙ rw (eq_refl id, h.own) refl;
  others = λ j d. lookup-on_runtime f id j now ∙ rw d (h.others j d);
  queue = h.queue;
}

pub observed_capacity :
    (code now : ℕ) (x : Runtime) → (observe_status code now x).capacity ≡ x.capacity
observed_capacity code now x = (observe_status-health code now x).4

-- One that entered and left the queue changes no gauge of it.
dec-inc :
    (selector model : Str) (q : QueueState)
    → queued_for model (dec selector (inc selector q)) ≡ queued_for model q
unfolding dec inc queued_for
dec-inc selector model q =
    simp lookup-insert (rw (eq_refl selector) (ground (arith, eq_iff selector model)))

dec-inc_all :
    (selector : Str) (q : QueueState)
    → (dec selector (inc selector q)).global_queued ≡ q.global_queued
unfolding dec inc
dec-inc_all selector q = omega arith

Held-Quiet :
    (before now : World) (id selector : Str) (r x : Runtime)
    → lookup id before.registry.providers ≡ some r
    → gauges (some x) ≡ gauges (some r)
    → Held before now id x (dec selector (inc selector before.queue))
    → Quiet before now
Held-Quiet before now id selector r x e g h = record {
  waiting = λ m. rw h.queue (dec-inc selector m before.queue);
  all_waiting = rw h.queue (dec-inc_all selector before.queue);
  capacity = λ j. elim (Bool-cases (id == j)) [
    | inl same ↦
        let own : id ≡ j = (eq_iff id j).0 same in
        rw (sym own) (ap gauges h.own ∙ g ∙ ap gauges (sym e))
    | inr other ↦ ap gauges (h.others j other)
  ];
}

same_capacity :
    (f : Runtime → Runtime) (id : Str) (w : World)
    → ((x : Runtime) → (f x).capacity ≡ x.capacity)
    → Quiet w (on_runtime f id w)
unfolding on_runtime
same_capacity f id w h = record {
  waiting = λ m. waits w m;
  all_waiting = waits_all w;
  capacity = λ j. lookup-kept j;
}
  where
    waits : (v : World) (m : Str) → queued_for m (on_runtime f id v).queue ≡ queued_for m v.queue
    waits v m = refl

    waits_all : (v : World) → (on_runtime f id v).queue.global_queued ≡ v.queue.global_queued
    waits_all v = refl

    gauges_kept : (o : Option Runtime) → gauges (applied f o) ≡ gauges o
    gauges_kept none = refl
    gauges_kept (some x) = rw (h x) refl

    lookup-kept :
        (j : Str)
        → gauges (lookup j (on_runtime f id w).registry.providers)
          ≡ gauges (lookup j w.registry.providers)
    lookup-kept j = elim (Bool-cases (id == j)) [
      | inl same ↦
          let own : id ≡ j = (eq_iff id j).0 same in
          ap gauges (lookup-on_runtime f id j w)
          ∙ rw same (rw (sym own) (gauges_kept (lookup id w.registry.providers)))
      | inr other ↦ ap gauges (lookup-on_runtime f id j w) ∙ rw other refl
    ]

abbrev leave : Str → World → World
leave selector w = record w { queue = dec selector w.queue }

abbrev Calm : World → Verdict → Type 0
Calm before (falls_through p) = Quiet before p.world
Calm before (breaks p) = Quiet before p.world
Calm before (settles p s) = Quiet before p.world
Calm before (cannot_prepare p id model e) = Quiet before p.world
Calm before (raises p) = Unit
Calm before (hangs p) = Unit

module _ (ticks reservation : ℕ) (selector id model : Str) (before : World) (r : Runtime) (t : Trip)
    (own : lookup id before.registry.providers ≡ some r) where
  abbrev got : Capacity × Capacity.Outcome
  got = Capacity.acquire ticks reservation t.entered_at r.capacity

  -- The state between `acquire` and `release`.
  abbrev Inside : Progress → Type 0
  Inside p =
      (x : Runtime) × Held before p.world id x (dec selector (inc selector before.queue))
      × (x.capacity ≡ got.0)

  release-Quiet :
      (ms : ℕ) (actual : Option ℤ) (p : Progress)
      → got.1 ≡ acquired ms
      → Inside p
      → Quiet before (on_runtime (give_back ticks reservation actual t.released_at) id p.world)
  unfolding give_back
  release-Quiet ms actual p a (x, h, e) =
      let k =
        release-acquire ticks reservation t.entered_at reservation t.released_at ms actual
          r.capacity a in
      Held-Quiet before _ id selector r (give_back ticks reservation actual t.released_at x) own
        (rw (e, k.0, k.1, k.2) refl)
        (Held-on_runtime before p.world id x _ (give_back ticks reservation actual t.released_at) h)

  module _ (ms : ℕ) (a : got.1 ≡ acquired ms) where
    marked-Quiet :
        (health : Runtime.Health) (error : HealthError) (p : Progress)
        → Inside p
        → Quiet before (
            on_runtime
              (mark_health health error t.ended)
              id
              (on_runtime (give_back ticks reservation none t.released_at) id p.world))
    unfolding mark_health
    marked-Quiet health error p i =
        Quiet-trans before _ _ (release-Quiet ms none p a i)
          (same_capacity (mark_health health error t.ended) id _ (λ x. refl))

    seen-Inside :
        (code : ℕ) (p : Progress)
        → Inside p
        → Inside (record p { world = on_runtime (observe_status code t.ended) id p.world })
    seen-Inside code p (x, h, e) = (
      observe_status code t.ended x,
      Held-on_runtime before p.world id x _ (observe_status code t.ended) h,
      observed_capacity code t.ended x ∙ e,
    )

    settle_with-Calm :
        (i wait_ms code : ℕ) (p : Progress) (s : Option Settlement)
        → Inside p
        → Calm before (settle_with ticks i id model reservation wait_ms t code p s)
    settle_with-Calm i wait_ms code p none h = tt
    settle_with-Calm i wait_ms code p (some s) h = release-Quiet ms s.actual_tokens p a h

    module _ (e : Endpoint) (http_reason : ℕ → Str) (trip : ℕ → Outgoing → Trip) where
      on_reply-Calm :
          (more : Bool) (i : ℕ) (y : Runtime) (wait_ms : ℕ) (reply : Reply) (p : Progress)
          → Inside p
          → Calm before
              (on_reply ticks e http_reason trip more i y id model reservation wait_ms t reply p)
      unfolding on_reply
      on_reply-Calm true i y wait_ms (refused reason) p h = marked-Quiet _ _ p h
      on_reply-Calm false i y wait_ms (refused reason) p h = marked-Quiet _ _ p h
      on_reply-Calm true i y wait_ms (no_connection name) p h = marked-Quiet _ _ p h
      on_reply-Calm false i y wait_ms (no_connection name) p h = marked-Quiet _ _ p h
      on_reply-Calm more i y wait_ms no_answer p h = marked-Quiet _ _ p h
      on_reply-Calm more i y wait_ms (request_failed name) p h = marked-Quiet _ _ p h
      on_reply-Calm more i y wait_ms aborts p h = tt
      on_reply-Calm more i y wait_ms (answered code body) p h =
          elim (Bool-cases (falls_back code && more)) [
            | inl passes ↦ rw passes (
                release-Quiet ms none
                  (record p { world = on_runtime (observe_status code t.ended) id p.world }) a
                  (seen-Inside code p h))
            | inr stays ↦ rw stays (
                settle_with-Calm i wait_ms code _ (e.settle y.config model code body)
                  (seen-Inside code p h))
          ]

  abbrev keeping : Runtime → Runtime
  keeping x = record x { capacity = got.0 }

  entered-Inside :
      (q : Progress)
      → q.world
        ≡ record (on_runtime keeping id (record before { queue = inc selector before.queue })) {
          queue = dec selector (inc selector before.queue);
        }
      → Inside q
  unfolding on_runtime
  entered-Inside q e = (
    record r { capacity = got.0 },
    rw e (record {
      own = lookup-on_runtime keeping id id before ∙ rw (eq_refl id, own) refl;
      others = λ j d. lookup-on_runtime keeping id j before ∙ rw d refl;
      queue = refl;
    }),
    refl,
  )

  prepared-Calm :
      (e : Endpoint) (http_reason : ℕ → Str) (trip : ℕ → Outgoing → Trip) (more : Bool) (i : ℕ)
      (y : Runtime) (q : Progress) (o : Capacity.Outcome)
      → got.1 ≡ o
      → q.world ≡ on_runtime keeping id (record before { queue = inc selector before.queue })
      → Calm before
          (after_acquire ticks e http_reason trip more i y id model reservation selector t q o)
  unfolding on_runtime
  prepared-Calm e http_reason trip more i y q (acquired ms) a h =
      on_reply-Calm ms a e http_reason trip more i y ms t.reply
        (record q { world = leave selector q.world; total_wait_ms = q.total_wait_ms + ms })
        (entered-Inside (record q { world = leave selector q.world }) (ap (leave selector) h))
  prepared-Calm e http_reason trip more i y q rejected a h = tt
  prepared-Calm e http_reason trip more i y q blocked a h = tt
  prepared-Calm e http_reason trip more i y q looping a h = tt

module _ (ticks : ℕ) (e : Endpoint) (http_reason : ℕ → Str) (trip : ℕ → Outgoing → Trip) where
  out-Calm :
      (more : Bool) (i : ℕ) (r : Runtime) (id model : Str) (reservation : ℕ) (selector : Str)
      (p : Progress) (o : Prepared)
      → lookup id p.world.registry.providers ≡ some r
      → Calm p.world (prepared ticks e http_reason trip more i r id model reservation selector p o)
  out-Calm more i r id model reservation selector p (adapter_error x) own = Quiet-refl p.world
  out-Calm more i r id model reservation selector p breaks_off own = tt
  out-Calm more i r id model reservation selector p (outgoing o) own =
      prepared-Calm ticks reservation selector id model p.world r (trip i o) own e http_reason trip
        more i r _ (Capacity.acquire ticks reservation (trip i o).entered_at r.capacity).1 refl refl

  found-Calm :
      (more : Bool) (i : ℕ) (id model : Str) (reservation : ℕ) (selector : Str) (payload : Fields)
      (p : Progress) (r : Option Runtime)
      → lookup id p.world.registry.providers ≡ r
      → Calm p.world
          (found ticks e http_reason trip more i id model reservation selector payload p r)
  found-Calm more i id model reservation selector payload p none own = tt
  found-Calm more i id model reservation selector payload p (some r) own =
      out-Calm more i r id model reservation selector p (e.prepare r.config payload model) own

  abbrev pub Settles : World → Finish → Type 0
  Settles before (unanswered p) = Quiet before p.world
  Settles before (settled p s) = Quiet before p.world
  Settles before (unprepared p id model x) = Quiet before p.world
  Settles before (raised p) = Unit
  Settles before (hung p) = Unit

  Settles-trans : (u v : World) (f : Finish) → Quiet u v → Settles v f → Settles u f
  Settles-trans u v (unanswered p) a b = Quiet-trans u v p.world a b
  Settles-trans u v (settled p s) a b = Quiet-trans u v p.world a b
  Settles-trans u v (unprepared p id model x) a b = Quiet-trans u v p.world a b
  Settles-trans u v (raised p) a b = tt
  Settles-trans u v (hung p) a b = tt

  go_on-Settles :
      (before : World) (v : Verdict) (k : Progress → Finish)
      → Calm before v
      → ((q : Progress) → Settles q.world (k q))
      → Settles before (go_on ticks e http_reason trip v k)
  go_on-Settles before (falls_through q) k c next = Settles-trans before q.world (k q) c (next q)
  go_on-Settles before (breaks q) k c next = c
  go_on-Settles before (settles q s) k c next = c
  go_on-Settles before (cannot_prepare q id model x) k c next = c
  go_on-Settles before (raises q) k c next = tt
  go_on-Settles before (hangs q) k c next = tt

  -- Whatever the providers answer, and however many of them are tried, a loop that ends without an
  -- exception leaves every gauge as it was: for each model and in all as many requests wait as
  -- before, and each provider has as many queued and active requests and as many free slots.
  pub try_targets-Quiet :
      (i : ℕ) (targets : List (Str × Str)) (reservation : ℕ) (selector : Str) (payload : Fields)
      (p : Progress)
      → Settles p.world
          (try_targets ticks e http_reason trip i targets reservation selector payload p)
  unfolding try_targets try_target
  try_targets-Quiet i [] reservation selector payload p = Quiet-refl p.world
  try_targets-Quiet i ((id, model) ∷ ts) reservation selector payload p =
      go_on-Settles p.world
        (found ticks e http_reason trip (is_more ticks e http_reason trip ts) i id model reservation
          selector payload p (config_of id p.world))
        (λ q. try_targets ticks e http_reason trip (i + 1) ts reservation selector payload q)
        (found-Calm (is_more ticks e http_reason trip ts) i id model reservation selector payload p
          (config_of id p.world) refl)
        (λ q. try_targets-Quiet (i + 1) ts reservation selector payload q)

  -- An exception of the call itself that is none of the HTTP client's, a cancellation among them,
  -- leaves the function without a `release`: the provider keeps the request among its active ones.
  pub try_target-leaks :
      (more : Bool) (i : ℕ) (id model : Str) (reservation : ℕ) (selector : Str) (payload : Fields)
      (p : Progress) (r : Runtime) (o : Outgoing) (ms : ℕ)
      → lookup id p.world.registry.providers ≡ some r
      → e.prepare r.config payload model ≡ outgoing o
      → (Capacity.acquire ticks reservation (trip i o).entered_at r.capacity).1 ≡ acquired ms
      → (trip i o).reply ≡ aborts
      → (q : Progress) × (x : Runtime) × (try_target ticks e http_reason trip more i id model
            reservation selector payload p
          ≡ raises q)
        × (lookup id q.world.registry.providers ≡ some x)
        × (x.capacity.active ≡ r.capacity.active + 1)
  unfolding try_target on_reply on_runtime
  try_target-leaks more i id model reservation selector payload p r o ms own h a b =
      let c = (Capacity.acquire ticks reservation (trip i o).entered_at r.capacity).0 in
      let m : Moves r.capacity c (acquired ms) =
        rw a at (acquire-Moves ticks reservation (trip i o).entered_at r.capacity) in
      (
        record p {
          world = leave selector (
              on_runtime (λ x. record x { capacity = c }) id
                (enqueue ticks e http_reason trip selector p.world));
          total_wait_ms = p.total_wait_ms + ms;
        },
        record r { capacity = c },
        rw (own, h) (rw a (rw b (simp own refl))),
        simp own (
            lookup-insert id id (record r { capacity = c }) p.world.registry.providers
            ∙ rw (eq_refl id) refl),
        m.1,
      )
