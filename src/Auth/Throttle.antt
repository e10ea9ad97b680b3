-- ===== src/Auth/Throttle.antt =====
-- `LoginThrottle` of app/auth.py: the failed logins of each key in a window of time.
pub mod Window
pub mod Tests
use prismux.Prelude.{
  ℕ, ◌+◌, Bool, true, false, Option, none, some, List, [], ◌∷◌, ◌++◌, length, Dict, lookup, insert,
  erase, Str, text_eq, leb, ltb, if◌then◌else◌,
}

pub record LoginThrottle : Type 0 where
  pub attempts : ℕ
  pub window : ℕ
  pub events : Dict Str (List ℕ)

abbrev pub list_or_empty : Option (List ℕ) → List ℕ
list_or_empty none = []
list_or_empty (some ts) = ts

-- `self._events[key]` of the `defaultdict`
unfoldable pub events_of : Str → LoginThrottle → List ℕ
events_of key t = list_or_empty (lookup key t.events)

-- `while events and events[0] <= now - self.window_seconds: events.popleft()`
unfoldable pub drop_expired : ℕ → ℕ → List ℕ → List ℕ
drop_expired window now [] = []
drop_expired window now (t ∷ ts) =
    let rest = drop_expired window now ts in if leb (t + window) now then rest else t ∷ ts

abbrev pub set_events : Str → List ℕ → LoginThrottle → LoginThrottle
set_events key ts t = record t { events = insert key ts t.events }

-- `_trim`, which leaves an empty deque for a key without events.
unfoldable pub trim : Str → ℕ → LoginThrottle → LoginThrottle
trim key now t = set_events key (drop_expired t.window now (events_of key t)) t

unfoldable pub allowed : Str → ℕ → LoginThrottle → LoginThrottle × Bool
allowed key now t = let u = trim key now t in (u, ltb (length (events_of key u)) t.attempts)

unfoldable pub failure : Str → ℕ → LoginThrottle → LoginThrottle
failure key now t = let u = trim key now t in set_events key (events_of key u ++ (now ∷ [])) u

unfoldable pub success : Str → LoginThrottle → LoginThrottle
success key t = record t { events = erase key t.events }
