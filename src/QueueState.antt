-- ===== src/QueueState.antt =====
-- app/queue_state.py: the gauge of requests that wait for capacity, in all and by model.
-- Each method runs under the lock, so a history of calls is a sequence of them.
pub mod Balance
pub mod Tests
use prismux.Prelude.{
  ℕ, ◌+◌, ◌-◌, Option, none, some, List, [], ◌∷◌, Dict, lookup, lookup_or, insert, Str, text_eq,
}

pub record QueueState : Type 0 where
  pub global_queued : ℕ
  pub by_model : Dict Str ℕ

abbrev pub empty : QueueState
empty = record { global_queued = 0; by_model = [] }

-- `self.by_model.get(model, 0)`
abbrev pub count_or_zero : Option ℕ → ℕ
count_or_zero none = 0
count_or_zero (some n) = n

unfoldable pub queued_for : Str → QueueState → ℕ
queued_for model q = count_or_zero (lookup model q.by_model)

unfoldable pub inc : Str → QueueState → QueueState
inc model q = record {
  global_queued = q.global_queued + 1;
  by_model = insert model (queued_for model q + 1) q.by_model;
}

-- `max(0, n - 1)` is the subtraction of natural numbers.
unfoldable pub dec : Str → QueueState → QueueState
dec model q = record {
  global_queued = q.global_queued - 1;
  by_model = insert model (queued_for model q - 1) q.by_model;
}

unfoldable pub reset : QueueState → QueueState
reset q = empty
