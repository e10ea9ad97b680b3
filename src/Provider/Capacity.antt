-- ===== src/Provider/Capacity.antt =====
-- `CapacityController` of app/multi_provider.py: the request bucket, the token bucket and the
-- semaphore of one provider, with the gauges of queued and active requests.
-- `ticks` is the number of clock ticks in a second, so `60 * ticks` bucket units make one token.
-- A wait is that of a caller from whose buckets nobody else takes while it sleeps, up to the first
-- tick at which enough has come in. A pass that comes earlier, because the clock or the float of the
-- sleep falls short, takes nothing and is followed by another one.
pub mod Chunks
pub mod Slots
pub mod Tests
use prismux.Prelude.{
  ℕ, zero, suc, ◌+◌, ◌-◌, ◌*◌, ◌/◌, ◌≤◌, min, max, Bool, Option, none, some, ltb, nat_eq, ltb_ℤ,
  ◌-ℤ◌, pos_part, ℤ, pos, round_div, if◌then◌else◌,
}
use prismux.Limiter
use prismux.Limiter.{TokenBucket, Pass, granted, sleep, try_acquire}
use prismux.Provider.Config.{ProviderConfig}

pub record Capacity : Type 0 where
  pub request_bucket : Option TokenBucket
  pub token_bucket : Option TokenBucket
  pub semaphore : Option ℕ
  pub queued : ℕ
  pub active : ℕ

abbrev pub bucket_of : Option ℕ → Option ℕ → ℕ → Option TokenBucket
bucket_of (some rate) (some capacity) now = some (Limiter.new rate capacity now)
bucket_of _ _ now = none

-- `config.token_burst or config.tokens_per_minute`
abbrev pub or_limit : Option ℕ → Option ℕ → Option ℕ
or_limit (some n) m = some n
or_limit none m = m

unfoldable pub new : ProviderConfig → ℕ → Capacity
new config now = record {
  request_bucket = bucket_of config.rate_limit_rpm (some config.request_burst) now;
  token_bucket =
      bucket_of config.tokens_per_minute (or_limit config.token_burst config.tokens_per_minute) now;
  semaphore = config.max_concurrency;
  queued = 0;
  active = 0;
}

-- The time at which `bucket.acquire(amount)` returns, or its `ValueError`.
pub data Taken : Type 0 where
  taken : TokenBucket → ℕ → Taken
  too_much : Taken

-- The first tick by which `missing` units have come in.
unfoldable pub ticks_to_refill : ℕ → ℕ → ℕ
ticks_to_refill missing rate = (missing + rate - 1) / rate

abbrev pub after_pass : ℕ → ℕ → TokenBucket × Pass → Taken
after_pass amount now (b, granted) = taken b now
after_pass amount now (b, sleep missing rate) =
    let woken = now + ticks_to_refill missing rate in taken (try_acquire amount woken b).0 woken

unfoldable pub take_from : ℕ → ℕ → TokenBucket → Taken
take_from amount now b =
    if nat_eq amount 0
    then taken b now
    else if ltb b.capacity amount
    then too_much
    else after_pass amount now (try_acquire amount now b)

-- The loop that takes the reservation in chunks of at most the whole tokens that the bucket holds.
-- `spins` means that the fuel ran out.
pub data Reserved : Type 0 where
  reserved : TokenBucket → ℕ → Reserved
  refused : Reserved
  spins : Reserved

abbrev pub go_on : Taken → (TokenBucket → ℕ → Reserved) → Reserved
go_on (taken b now) k = k b now
go_on too_much k = refused

-- What the caller of `acquire` gets: the waiting time in milliseconds, the `ValueError` of a
-- bucket, or no return, from the semaphore or from the loop.
pub data Outcome : Type 0 where
  acquired : ℕ → Outcome
  rejected : Outcome
  blocked : Outcome
  looping : Outcome

module _ (ticks : ℕ) where
  abbrev pub token : ℕ
  token = 60 * ticks

  -- `min(remaining, int(self.token_bucket.capacity))`
  abbrev pub chunk_of : ℕ → TokenBucket → ℕ
  chunk_of remaining b = min remaining (b.capacity / token)

  unfoldable pub reserve : ℕ → ℕ → ℕ → TokenBucket → Reserved
  reserve zero remaining now b = spins
  reserve (suc fuel) remaining now b =
      let later =
        go_on (take_from (chunk_of remaining b * token) now b)
          (λ b' now'. reserve fuel (remaining - chunk_of remaining b) now' b') in
      if nat_eq remaining 0 then reserved b now else later

  abbrev pub wait_ms : ℕ → ℕ → ℕ
  wait_ms started now = round_div ((now - started) * 1000) ticks

  abbrev pub activate : ℕ → ℕ → Capacity → Capacity × Outcome
  activate started now c =
      (record c { active = c.active + 1; queued = c.queued - 1 }, acquired (wait_ms started now))

  -- `finally: self._queued -= 1` on the way out of an exception.
  abbrev pub raise : Capacity → Capacity × Outcome
  raise c = (record c { queued = c.queued - 1 }, rejected)

  abbrev pub take_slot : ℕ → ℕ → Option ℕ → Capacity → Capacity × Outcome
  take_slot started now none c = activate started now c
  take_slot started now (some zero) c = (c, blocked)
  take_slot started now (some (suc n)) c = activate started now (record c { semaphore = some n })

  abbrev pub with_tokens : ℕ → Reserved → Capacity → Capacity × Outcome
  with_tokens started (reserved b now) c =
      take_slot started now c.semaphore (record c { token_bucket = some b })
  with_tokens started refused c = raise c
  with_tokens started spins c = (c, looping)

  abbrev pub take_tokens : ℕ → ℕ → ℕ → Option TokenBucket → Capacity → Capacity × Outcome
  take_tokens reservation started now none c = take_slot started now c.semaphore c
  take_tokens reservation started now (some b) c =
      let remaining = max 1 reservation in
      with_tokens started (reserve (suc remaining) remaining now b) c

  abbrev pub with_request : ℕ → ℕ → Taken → Capacity → Capacity × Outcome
  with_request reservation started (taken b now) c =
      take_tokens reservation started now c.token_bucket (record c { request_bucket = some b })
  with_request reservation started too_much c = raise c

  abbrev pub take_request : ℕ → ℕ → Option TokenBucket → Capacity → Capacity × Outcome
  take_request reservation started none c = take_tokens reservation started started c.token_bucket c
  take_request reservation started (some b) c =
      with_request reservation started (take_from token started b) c

  unfoldable pub acquire : ℕ → ℕ → Capacity → Capacity × Outcome
  acquire reservation started c =
      take_request reservation started c.request_bucket (record c { queued = c.queued + 1 })

  -- `reserved - actual` units come back when the upstream used less than was reserved.
  abbrev pub refund_unused : ℕ → Option ℤ → ℕ → Option TokenBucket → Option TokenBucket
  refund_unused amount actual now none = none
  refund_unused amount none now (some b) = some b
  refund_unused amount (some n) now (some b) =
      if ltb_ℤ n (pos amount)
      then some (Limiter.refund (pos_part (pos amount -ℤ n) * token) now b)
      else some b

  abbrev pub free_slot : Option ℕ → Option ℕ
  free_slot none = none
  free_slot (some n) = some (n + 1)

  unfoldable pub release : ℕ → Option ℤ → ℕ → Capacity → Capacity
  release amount actual now c = record c {
    token_bucket = refund_unused amount actual now c.token_bucket;
    semaphore = free_slot c.semaphore;
    active = c.active - 1;
  }
