-- ===== src/QueueState/Balance.antt =====
-- The gauge of app/queue_state.py against the requests that are really waiting.
use prismux.Prelude.{
  ℕ, ◌+◌, ◌-◌, ◌<◌, ◌≡◌, ◌≢◌, refl, List, [], ◌∷◌, Dict, lookup, insert, lookup-insert, total, Str,
  text_eq, ◌==◌, eq_iff, eq_false, eq_refl, if◌then◌else◌, arith,
}
use prismux.QueueState.{QueueState, empty, count_or_zero, queued_for, inc, dec, reset}

pub data Event : Type 0 where
  enters leaves : Str → Event

unfoldable pub step : Event → QueueState → QueueState
step (enters model) q = inc model q
step (leaves model) q = dec model q

unfoldable pub run : List Event → QueueState → QueueState
run [] q = q
run (e ∷ es) q = run es (step e q)

-- How many requests for a model wait, counted from the calls: none leaves that did not enter.
abbrev pub waiting_after : Event → Str → ℕ → ℕ
waiting_after (enters m) model n = if m == model then n + 1 else n
waiting_after (leaves m) model n = if m == model then n - 1 else n

abbrev pub Waiting : Type 0
Waiting = Str → ℕ

abbrev pub after : Event → Waiting → Waiting
after e w model = waiting_after e model (w model)

-- Every `dec` follows the `inc` of the same request, as in the `finally` blocks of app/main.py.
abbrev pub Paired : List Event → Waiting → Type 0
Paired [] w = Unit
Paired (enters m ∷ es) w = Paired es (after (enters m) w)
Paired (leaves m ∷ es) w = (0 < w m) × Paired es (after (leaves m) w)

unfoldable pub waiting_at : List Event → Waiting → Waiting
waiting_at [] w = w
waiting_at (e ∷ es) w = waiting_at es (after e w)

abbrev pub sum_counts : Dict Str ℕ → ℕ
sum_counts = total (λ n. n)

-- The gauge shows what waits, by model and in all.
pub record Shows (q : QueueState) (w : Waiting) : Type 0 where
  pub each : (model : Str) → queued_for model q ≡ w model
  pub all_models : q.global_queued ≡ sum_counts q.by_model

sum-insert :
    (model : Str) (n : ℕ) (d : Dict Str ℕ)
    → sum_counts (insert model n d) + count_or_zero (lookup model d) ≡ sum_counts d + n
unfolding insert lookup
sum-insert model n [] = omega arith
sum-insert model n ((j, m) ∷ d) = ground (arith, sum-insert model n d)

inc-Shows :
    (m : Str) (q : QueueState) (w : Waiting) → Shows q w → Shows (inc m q) (after (enters m) w)
unfolding inc queued_for
inc-Shows m q w h = record {
  each = λ model. rw lookup-insert (ground (arith, h.each m, h.each model, eq_iff m model));
  all_models = omega (arith, sum-insert m (queued_for m q + 1) q.by_model, h.all_models);
}

dec-Shows :
    (m : Str) (q : QueueState) (w : Waiting)
    → 0 < w m
    → Shows q w
    → Shows (dec m q) (after (leaves m) w)
unfolding dec queued_for
dec-Shows m q w k h = record {
  each = λ model. rw lookup-insert (ground (arith, h.each m, h.each model, eq_iff m model));
  all_models = omega (arith, sum-insert m (queued_for m q - 1) q.by_model, h.all_models, h.each m);
}

run-Shows :
    (es : List Event) (q : QueueState) (w : Waiting)
    → Paired es w
    → Shows q w
    → Shows (run es q) (waiting_at es w)
unfolding run waiting_at step
run-Shows [] q w p h = h
run-Shows (enters m ∷ es) q w p h =
    run-Shows es (inc m q) (after (enters m) w) p (inc-Shows m q w h)
run-Shows (leaves m ∷ es) q w p h =
    run-Shows es (dec m q) (after (leaves m) w) p.1 (dec-Shows m q w p.0 h)

-- After any interleaving of requests that enter and leave, each leaving at most once after it
-- entered, the gauge of every model is the number of its requests that wait, and the global gauge
-- is the sum of those.
pub run-counts :
    (es : List Event)
    → Paired es (λ _. 0)
    → ((model : Str) → queued_for model (run es empty) ≡ waiting_at es (λ _. 0) model)
      × ((run es empty).global_queued ≡ sum_counts (run es empty).by_model)
unfolding queued_for lookup
run-counts es p =
    let s = run-Shows es empty (λ _. 0) p (record { each = λ model. refl; all_models = refl }) in
    (s.each, s.all_models)

-- A `reset` forgets the requests that wait: when one of them leaves afterwards, it is taken off the
-- global gauge in place of another, which the gauge of its own model still shows.
pub reset-undercounts :
    (m n : Str) (q : QueueState)
    → m ≢ n
    → let r = run (enters n ∷ leaves m ∷ []) (reset q) in
      (r.global_queued ≡ 0) × (queued_for n r ≡ 1)
unfolding run step reset inc dec queued_for lookup
reset-undercounts m n q h = (refl, simp lookup-insert (rw (eq_false m n h, eq_refl n) refl))
