-- ===== src/Limiter/Bounds.antt =====
-- What a bucket of app/limiter.py can let through, whoever calls it and in whatever order.
use prismux.Prelude.{ℕ, ◌+◌, ◌-◌, ◌*◌, ◌≤◌, ◌≡◌, ap, List, [], ◌∷◌, arith}
use prismux.Limiter.{TokenBucket, Pass, granted, sleep, level, try_acquire, refund, reconfigure}

-- A call that reached the bucket's lock, with the time read under it.
pub data Event : Type 0 where
  tried : ℕ → ℕ → Event
  refunded : ℕ → ℕ → Event

abbrev pub time_of : Event → ℕ
time_of (tried amount now) = now
time_of (refunded amount now) = now

abbrev pub apply : Event → TokenBucket → TokenBucket
apply (tried amount now) b = (try_acquire amount now b).0
apply (refunded amount now) b = refund amount now b

abbrev pub if_granted : Pass → ℕ → ℕ
if_granted granted amount = amount
if_granted (sleep missing rate) amount = 0

abbrev pub taken_by : Event → TokenBucket → ℕ
taken_by (tried amount now) b = if_granted (try_acquire amount now b).1 amount
taken_by (refunded amount now) b = 0

abbrev pub given_by : Event → ℕ
given_by (tried amount now) = 0
given_by (refunded amount now) = amount

unfoldable pub run : TokenBucket → List Event → TokenBucket
run b [] = b
run b (e ∷ es) = run (apply e b) es

-- The units handed out by the calls, and those that refunds brought back.
unfoldable pub taken : TokenBucket → List Event → ℕ
taken b [] = 0
taken b (e ∷ es) = taken_by e b + taken (apply e b) es

unfoldable pub given_back : List Event → ℕ
given_back [] = 0
given_back (e ∷ es) = given_by e + given_back es

-- The clock does not run backwards, and no call is later than `until`.
abbrev pub InOrder : ℕ → List Event → ℕ → Type 0
InOrder now [] until = now ≤ until
InOrder now (e ∷ es) until = (now ≤ time_of e) × InOrder (time_of e) es until

abbrev pub IsWithin : TokenBucket → Type 0
IsWithin b = b.tokens ≤ b.capacity

pub try_acquire-IsWithin :
    (amount now : ℕ) (b : TokenBucket) → IsWithin (try_acquire amount now b).0
unfolding try_acquire
try_acquire-IsWithin amount now b = ground arith

-- Whatever a bucket goes through, a call, a refund or new limits, it holds no more than its
-- capacity, and its level never reads above it.
pub IsWithin-capacity :
    (b : TokenBucket)
    → IsWithin b
    → ((amount now : ℕ) → IsWithin (try_acquire amount now b).0)
      × ((amount now : ℕ) → IsWithin (refund amount now b))
      × ((rpm capacity now : ℕ) → IsWithin (reconfigure rpm capacity now b))
      × ((now : ℕ) → level b now ≤ b.capacity)
unfolding refund reconfigure level
IsWithin-capacity b h = (
  λ amount now. try_acquire-IsWithin amount now b,
  λ amount now. ground arith,
  λ rpm capacity now. omega arith,
  λ now. omega arith,
)

split_time :
    (last now until rate : ℕ)
    → last ≤ now
    → now ≤ until
    → (until - last) * rate ≡ (now - last) * rate + (until - now) * rate
split_time last now until rate h k =
    let e : until - last ≡ (now - last) + (until - now) = omega arith in
    omega (arith, ap (λ (t : ℕ). t * rate) e)

-- What the bucket could have handed out by the time `until`.
abbrev pub potential : TokenBucket → ℕ → ℕ
potential b until = b.tokens + (until - b.last_refill) * b.rate

pub apply-rate : (e : Event) (b : TokenBucket) → (apply e b).rate ≡ b.rate
unfolding try_acquire refund
apply-rate (tried amount now) b = ground arith
apply-rate (refunded amount now) b = ground arith

pub apply-last :
    (e : Event) (b : TokenBucket) → b.last_refill ≤ time_of e → (apply e b).last_refill ≤ time_of e
unfolding try_acquire refund
apply-last (tried amount now) b h = ground arith
apply-last (refunded amount now) b h = ground arith

-- One call takes what it lets through out of the potential.
pub apply-potential :
    (e : Event) (b : TokenBucket) (until : ℕ)
    → b.last_refill ≤ time_of e
    → time_of e ≤ until
    → taken_by e b + potential (apply e b) until ≤ potential b until + given_by e
unfolding try_acquire refund
apply-potential (tried amount now) b until h k =
    ground (arith, split_time b.last_refill now until b.rate h k)
apply-potential (refunded amount now) b until h k =
    ground (arith, split_time b.last_refill now until b.rate h k)

time_of-le : (now : ℕ) (es : List Event) (until : ℕ) → InOrder now es until → now ≤ until
time_of-le now [] until h = h
time_of-le now (e ∷ es) until (h, k) = omega (arith, time_of-le (time_of e) es until k)

InOrder-le :
    (m n : ℕ) (es : List Event) (until : ℕ) → m ≤ n → InOrder n es until → InOrder m es until
InOrder-le m n [] until h k = omega arith
InOrder-le m n (e ∷ es) until h k = (omega arith, k.1)

taken-potential :
    (b : TokenBucket) (es : List Event) (until : ℕ)
    → InOrder b.last_refill es until
    → taken b es + (run b es).tokens ≤ potential b until + given_back es
unfolding taken run given_back
taken-potential b [] until h = omega arith
taken-potential b (e ∷ es) until (h, k) = omega (
  arith,
  apply-potential e b until h (time_of-le (time_of e) es until k),
  taken-potential (apply e b) es until (InOrder-le _ (time_of e) es until (apply-last e b h) k),
)

-- Between the last refill of a bucket and the time `until`, the calls are let through no more units
-- than its capacity, what `until` adds at the configured rate, and what refunds gave back.
pub admission_bound :
    (b : TokenBucket) (es : List Event) (until : ℕ)
    → IsWithin b
    → InOrder b.last_refill es until
    → taken b es ≤ b.capacity + (until - b.last_refill) * b.rate + given_back es
admission_bound b es until h k = omega (arith, taken-potential b es until k)
