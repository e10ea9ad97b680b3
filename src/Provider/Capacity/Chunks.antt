-- ===== src/Provider/Capacity/Chunks.antt =====
-- The loop of app/multi_provider.py that takes a token reservation in chunks.
use native.Mathlib.Nat.{div-add-mod, mod-lt, zero-mul, sub-zero}
use prismux.Prelude.{
  ℕ, zero, suc, ◌+◌, ◌-◌, ◌*◌, ◌/◌, ◌%◌, ◌≤◌, ◌<◌, ◌≡◌, refl, ap, ◌∙◌, false, nat_eq, ltb,
  Bool-cases, inl, inr, dec_lt, arith,
}
use prismux.Limiter.{TokenBucket, Pass, granted, sleep, try_acquire, level}
use prismux.Limiter.Bounds.{tried, potential, apply-potential, apply-rate, apply-last}
use prismux.Limiter.Waits.{fails, passes}
use prismux.Provider.Capacity.{
  taken, ticks_to_refill, after_pass, take_from, reserved, spins, token, chunk_of, reserve,
}

-- What is missing has come in by then.
ticks_to_refill-covers :
    (missing rate : ℕ) → 0 < rate → missing ≤ ticks_to_refill missing rate * rate
unfolding ticks_to_refill
ticks_to_refill-covers missing rate h =
    let n : ℕ = missing + rate - 1 in grind (arith, div-add-mod n rate, mod-lt n h)

-- What comes in from `now` to `later` covers what was missing, if the sleep was not cut short.
enough :
    (missing rate now later : ℕ)
    → 0 < rate
    → now + ticks_to_refill missing rate ≤ later
    → missing ≤ (later - now) * rate
enough missing rate now later h k =
    let d : ticks_to_refill missing rate ≤ later - now = omega arith in
    grind (arith, ticks_to_refill-covers missing rate h)

-- A pass at which too little has come in is followed by one that is let through.
then_granted :
    (amount now : ℕ) (b : TokenBucket) (later : ℕ)
    → 0 < b.rate
    → amount ≤ b.capacity
    → now + ticks_to_refill (amount - level b now) b.rate ≤ later
    → (try_acquire amount later (record b { tokens = level b now; last_refill = now })).1 ≡ granted
unfolding try_acquire level
then_granted amount now b later h fits k =
    ground (arith, enough (amount - level b now) b.rate now later h k)

-- `amount` units left the bucket `b` between the time `now` and the time `now'`.
pub record Took (amount now : ℕ) (b : TokenBucket) (now' : ℕ) (b' : TokenBucket) : Type 0 where
  pub same_rate : b'.rate ≡ b.rate
  pub same_capacity : b'.capacity ≡ b.capacity
  pub later : now ≤ now'
  pub filled : b'.last_refill ≤ now'
  pub paid : (until : ℕ) → now' ≤ until → amount + potential b' until ≤ potential b until

apply-capacity :
    (amount now : ℕ) (b : TokenBucket) → (try_acquire amount now b).0.capacity ≡ b.capacity
unfolding try_acquire
apply-capacity amount now b = ground arith

pass-Took :
    (amount now : ℕ) (b : TokenBucket)
    → b.last_refill ≤ now
    → (try_acquire amount now b).1 ≡ granted
    → Took amount now b now (try_acquire amount now b).0
pass-Took amount now b h e = record {
  same_rate = apply-rate (tried amount now) b;
  same_capacity = apply-capacity amount now b;
  later = omega arith;
  filled = apply-last (tried amount now) b h;
  paid = λ until k. omega (arith, (rw e at (apply-potential (tried amount now) b until h k)));
}

fail-Took :
    (amount now now' : ℕ) (b : TokenBucket) (missing rate : ℕ)
    → b.last_refill ≤ now
    → now ≤ now'
    → (try_acquire amount now b).1 ≡ sleep missing rate
    → Took 0 now b now' (try_acquire amount now b).0
fail-Took amount now now' b missing rate h k e = record {
  same_rate = apply-rate (tried amount now) b;
  same_capacity = apply-capacity amount now b;
  later = k;
  filled = omega (arith, apply-last (tried amount now) b h);
  paid = λ until k'.
      omega (arith, (rw e at (apply-potential (tried amount now) b until h (omega arith))));
}

Took-trans :
    (m n total now : ℕ) (b : TokenBucket) (now' : ℕ) (b' : TokenBucket) (now'' : ℕ)
    (b'' : TokenBucket)
    → m + n ≡ total
    → Took m now b now' b'
    → Took n now' b' now'' b''
    → Took total now b now'' b''
Took-trans m n total now b now' b' now'' b'' e h k = record {
  same_rate = k.same_rate ∙ h.same_rate;
  same_capacity = k.same_capacity ∙ h.same_capacity;
  later = omega (arith, h.later, k.later);
  filled = k.filled;
  paid = λ until e'. omega (arith, h.paid until (omega (arith, k.later)), k.paid until e');
}

Took-none : (now : ℕ) (b : TokenBucket) → b.last_refill ≤ now → Took 0 now b now b
Took-none now b h = record {
  same_rate = refl;
  same_capacity = refl;
  later = omega arith;
  filled = h;
  paid = λ until k. omega arith;
}

-- What `take_from` does: it takes the amount, now or after one sleep.
module _ (amount now : ℕ) (b : TokenBucket) where
  abbrev pub Takes : Type 0
  Takes =
      (now' : ℕ) × (b' : TokenBucket) × (take_from amount now b ≡ taken b' now')
      × Took amount now b now' b'

  take_zero : b.last_refill ≤ now → amount ≡ 0 → Takes
  unfolding take_from
  take_zero k z = (now, b, rw z, rw z (Took-none now b k))

  take_now :
      b.last_refill ≤ now
      → nat_eq amount 0 ≡ false
      → ltb b.capacity amount ≡ false
      → amount ≤ level b now
      → Takes
  unfolding take_from
  take_now k nz fits long = (
    now,
    (try_acquire amount now b).0,
    rw (nz, fits) (after_granted (try_acquire amount now b) (passes amount now b long)),
    pass-Took amount now b k (passes amount now b long),
  )
    where
      after_granted :
          (r : TokenBucket × Pass) → r.1 ≡ granted → after_pass amount now r ≡ taken r.0 now
      after_granted (c, p) e = rw e

  take_later :
      b.last_refill ≤ now
      → 0 < b.rate
      → nat_eq amount 0 ≡ false
      → ltb b.capacity amount ≡ false
      → level b now < amount
      → Takes
  unfolding take_from
  take_later k h nz fits short =
      let w = ticks_to_refill (amount - level b now) b.rate in
      let e = fails amount now b short in
      let b1 : TokenBucket = record b { tokens = level b now; last_refill = now } in
      let first : Took 0 now b (now + w) b1 = rw (ap (λ p. p.0) e) at (
        fail-Took amount now (now + w) b (amount - level b now) b.rate k (omega arith)
          (ap (λ p. p.1) e)) in
      let done = then_granted amount now b (now + w) h (ground arith) (omega arith) in
      let second = pass-Took amount (now + w) b1 (omega arith) done in
      (
        now + w,
        (try_acquire amount (now + w) b1).0,
        rw (nz, fits, e),
        Took-trans 0 amount amount now b (now + w) b1 (now + w) _ (omega arith) first second,
      )

  pub take_from-Took : 0 < b.rate → amount ≤ b.capacity → b.last_refill ≤ now → Takes
  take_from-Took h fits k = elim (Bool-cases (nat_eq amount 0)) [
    | inl z ↦ take_zero k (ground arith)
    | inr nz ↦ elim (dec_lt (level b now) amount) [
      | yes short ↦ take_later k h nz (ground arith) short
      | no long ↦ take_now k nz (ground arith) (omega arith)
    ]
  ]

div_pos : (a b : ℕ) → 0 < b → b ≤ a → 0 < a / b
div_pos a b h k = elim (dec_lt 0 (a / b)) [
  | yes p ↦ p
  | no p ↦ absurd (
      let z : a / b ≡ 0 = omega arith in
      let e : b * 0 + a % b ≡ a = rw z at (div-add-mod a b) in omega (arith, mod-lt a h))
]

div_none : (a b : ℕ) → a < b → a / b ≡ 0
div_none a b h = elim (dec_lt 0 (a / b)) [
  | yes p ↦ absurd (let q : b * 1 ≤ b * (a / b) = grind arith in omega (arith, div-add-mod a b))
  | no p ↦ omega arith
]

take_nothing : (now : ℕ) (b : TokenBucket) → take_from 0 now b ≡ taken b now
unfolding take_from
take_nothing now b = refl

mul_split : (c r t : ℕ) → c ≤ r → c * t + (r - c) * t ≡ r * t
mul_split c r t h = let e : c + (r - c) ≡ r = omega arith in omega (arith, ap (λ (x : ℕ). x * t) e)

module _ (ticks : ℕ) where
  -- The loop took the whole reservation and stopped.
  abbrev pub Reserves : ℕ → ℕ → ℕ → TokenBucket → Type 0
  Reserves fuel remaining now b =
      (now' : ℕ) × (b' : TokenBucket) × (reserve ticks fuel remaining now b ≡ reserved b' now')
      × Took (remaining * token ticks) now b now' b'

  reserve_done :
      (fuel now : ℕ) (b : TokenBucket) → b.last_refill ≤ now → Reserves (suc fuel) 0 now b
  unfolding reserve
  reserve_done fuel now b k = (now, b, refl, rw (zero-mul (token ticks)) (Took-none now b k))

  chunk_fits :
      (remaining : ℕ) (b : TokenBucket)
      → 0 < ticks
      → chunk_of ticks remaining b * token ticks ≤ b.capacity
  chunk_fits remaining b h =
      let c = chunk_of ticks remaining b in
      let q : c ≤ b.capacity / token ticks = omega arith in
      grind (arith, div-add-mod b.capacity (token ticks))

  chunk_pos :
      (remaining : ℕ) (b : TokenBucket)
      → 0 < ticks
      → token ticks ≤ b.capacity
      → 0 < remaining
      → 0 < chunk_of ticks remaining b
  chunk_pos remaining b h k r = omega (arith, div_pos b.capacity (token ticks) (omega arith) k)

  reserve_step :
      (fuel remaining now : ℕ) (b : TokenBucket) (now' : ℕ) (b' : TokenBucket)
      → 0 < remaining
      → take_from (chunk_of ticks remaining b * token ticks) now b ≡ taken b' now'
      → reserve ticks (suc fuel) remaining now b
        ≡ reserve ticks fuel (remaining - chunk_of ticks remaining b) now' b'
  unfolding reserve
  reserve_step fuel remaining now b now' b' h e =
      let nz : nat_eq remaining 0 ≡ false = ground arith in rw (nz, e)

  reserve_all :
      (fuel remaining now : ℕ) (b : TokenBucket)
      → 0 < ticks
      → 0 < b.rate
      → token ticks ≤ b.capacity
      → b.last_refill ≤ now
      → remaining < fuel
      → Reserves fuel remaining now b
  reserve_all zero remaining now b t h c k f = elim f [ ]
  reserve_all (suc fuel) zero now b t h c k f = reserve_done fuel now b k
  reserve_all (suc fuel) (suc r) now b t h c k f =
      let chunk = chunk_of ticks (suc r) b in
      let pos = chunk_pos (suc r) b t c (omega arith) in
      let (now', b', e, took) =
        take_from-Took (chunk * token ticks) now b h (chunk_fits (suc r) b t) k in
      let (now'', b'', e', took') =
        reserve_all fuel (suc r - chunk) now' b' t (rw took.same_rate h) (rw took.same_capacity c)
          took.filled (omega arith) in
      (
        now'',
        b'',
        reserve_step fuel (suc r) now b now' b' (omega arith) e ∙ e',
        Took-trans (chunk * token ticks) ((suc r - chunk) * token ticks) (suc r * token ticks) now b
            now' b' now'' b'' (mul_split chunk (suc r) (token ticks) (omega arith)) took took',
      )

  no_chunk :
      (remaining : ℕ) (b : TokenBucket) → b.capacity < token ticks → chunk_of ticks remaining b ≡ 0
  no_chunk remaining b c = omega (arith, div_none b.capacity (token ticks) c)

  -- Where the token bucket holds at least one token, the loop over the chunks ends, with as many
  -- rounds as there are tokens to take at the most. Nothing is refused, and what it took, and the
  -- tokens left, never exceed what the bucket held and gained up to the time of its return.
  pub reserve-reserves :
      (remaining now : ℕ) (b : TokenBucket)
      → 0 < ticks
      → 0 < b.rate
      → token ticks ≤ b.capacity
      → b.last_refill ≤ now
      → (now' : ℕ) × (b' : TokenBucket) × (reserve ticks (suc remaining) remaining now b
          ≡ reserved b' now')
        × (now ≤ now')
        × (remaining * token ticks + b'.tokens ≤ b.tokens + (now' - b.last_refill) * b.rate)
  reserve-reserves remaining now b t h c k =
      let (now', b', e, took) = reserve_all (suc remaining) remaining now b t h c k (omega arith) in
      (now', b', e, took.later, omega (arith, took.paid now' (omega arith)))

  -- Where the bucket holds less than one token, each chunk is empty: the loop takes nothing and
  -- does not end, however many rounds it is given.
  pub reserve-spins :
      (fuel remaining now : ℕ) (b : TokenBucket)
      → 0 < remaining
      → b.capacity < token ticks
      → reserve ticks fuel remaining now b ≡ spins
  unfolding reserve
  reserve-spins zero remaining now b h c = refl
  reserve-spins (suc fuel) remaining now b h c =
      let empty = no_chunk remaining b c in
      reserve_step fuel remaining now b now b h
        (rw (empty, zero-mul (token ticks)) (take_nothing now b))
      ∙ rw (empty, sub-zero) (reserve-spins fuel remaining now b h c)
