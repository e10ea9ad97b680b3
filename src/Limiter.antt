-- ===== src/Limiter.antt =====
-- app/limiter.py: the token bucket behind the request and token limits.
-- Time is a number of clock ticks, read in the order in which `time.monotonic()` is called. Tokens
-- are counted in units so small that a bucket of `rpm` gains a whole number of them, `rate`, in one
-- tick (with t ticks to the second, 60 * t units to the token make `rate` equal to `rpm`), so the
-- floats of the source are exact here.
pub mod Bounds
pub mod Waits
pub mod Tests
use prismux.Prelude.{ℕ, ◌+◌, ◌-◌, ◌*◌, min, List, [], ◌∷◌, leb, ltb, nat_eq, if◌then◌else◌}

pub record TokenBucket : Type 0 where
  pub rate : ℕ
  pub capacity : ℕ
  pub tokens : ℕ
  pub last_refill : ℕ

-- `TokenBucket(rpm, capacity)`
unfoldable pub new : ℕ → ℕ → ℕ → TokenBucket
new rpm capacity now = record {
  rate = rpm;
  capacity = capacity;
  tokens = capacity;
  last_refill = now;
}

-- `min(self.capacity, self.tokens + (now - self.last_refill) * self.rate)`, which is `level` too.
unfoldable pub level : TokenBucket → ℕ → ℕ
level b now = min b.capacity (b.tokens + (now - b.last_refill) * b.rate)

-- One pass through the loop of `acquire`: the amount is taken, or the caller sleeps for the quotient
-- of the units that are missing and the rate. The quotient is a float in the source, so the time at
-- which the caller wakes is given by the next reading of the clock and not computed here.
pub data Pass : Type 0 where
  granted : Pass
  sleep : ℕ → ℕ → Pass

unfoldable pub try_acquire : ℕ → ℕ → TokenBucket → TokenBucket × Pass
unfolding level
try_acquire amount now b =
    let have = level b now in
    if leb amount have
    then (record b { tokens = have - amount; last_refill = now }, granted)
    else (record b { tokens = have; last_refill = now }, sleep (amount - have) b.rate)

-- What the caller of `acquire` sees: the time waited, the `ValueError`, or nothing yet, when the
-- readings given are used up.
pub data Outcome : Type 0 where
  waited : ℕ → Outcome
  exceeds_capacity : Outcome
  waiting : Outcome

-- Each reading is the time of one pass and the time at its return.
abbrev pub finish : ℕ → Pass → TokenBucket → ℕ → TokenBucket × Outcome → TokenBucket × Outcome
finish start granted b back rest = (b, waited (back - start))
finish start (sleep missing rate) b back rest = rest

unfoldable pub acquire_loop : ℕ → ℕ → List (ℕ × ℕ) → TokenBucket → TokenBucket × Outcome
acquire_loop amount start [] b = (b, waiting)
acquire_loop amount start ((now, back) ∷ later) b =
    let (b', pass) = try_acquire amount now b in
    finish start pass b' back (acquire_loop amount start later b')

unfoldable pub acquire : ℕ → ℕ → List (ℕ × ℕ) → TokenBucket → TokenBucket × Outcome
acquire amount start readings b =
    if nat_eq amount 0
    then (b, waited 0)
    else if ltb b.capacity amount
    then (b, exceeds_capacity)
    else acquire_loop amount start readings b

unfoldable pub refund : ℕ → ℕ → TokenBucket → TokenBucket
refund amount now b = if nat_eq amount 0 then b else record b {
  tokens = min b.capacity (b.tokens + (now - b.last_refill) * b.rate + amount);
  last_refill = now;
}

unfoldable pub reconfigure : ℕ → ℕ → ℕ → TokenBucket → TokenBucket
unfolding level
reconfigure rpm capacity now b = record {
  rate = rpm;
  capacity = capacity;
  tokens = min capacity (level b now);
  last_refill = now;
}
