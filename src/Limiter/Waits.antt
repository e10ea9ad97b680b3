-- ===== src/Limiter/Waits.antt =====
-- How long `acquire` of app/limiter.py waits.
use prismux.Prelude.{
  ℕ, ◌+◌, ◌-◌, ◌*◌, ◌≤◌, ◌<◌, ◌≡◌, ◌⊎◌, ap, ◌∙◌, refl, List, [], ◌∷◌, ◌++◌, arith, ltb, leb, nat_eq,
  min, true, false, Bool-cases, inl, inr, Option, none, some, if◌then◌else◌,
}
use prismux.Limiter.{
  TokenBucket, granted, sleep, Outcome, waited, waiting, exceeds_capacity, level, try_acquire,
  acquire_loop, acquire,
}

-- A pass at which too little has come in.
module _ (amount now : ℕ) (b : TokenBucket) (short : level b now < amount) where
  pub fails :
      try_acquire amount now b
      ≡ (record b { tokens = level b now; last_refill = now }, sleep (amount - level b now) b.rate)
  unfolding try_acquire
  fails = ground arith

-- A pass at which enough has come in.
pub passes :
    (amount now : ℕ) (b : TokenBucket)
    → amount ≤ level b now
    → (try_acquire amount now b).1 ≡ granted
unfolding try_acquire
passes amount now b h = ground arith

module _ (amount start now back : ℕ) (rest : List (ℕ × ℕ)) (b : TokenBucket) where
  loop-sleep :
      (missing rate : ℕ) (b' : TokenBucket)
      → try_acquire amount now b ≡ (b', sleep missing rate)
      → acquire_loop amount start ((now, back) ∷ rest) b ≡ acquire_loop amount start rest b'
  unfolding acquire_loop
  loop-sleep missing rate b' e = rw e

-- What the bucket holds and what has come in at the rate since, without regard to the capacity.
abbrev pub come_in : TokenBucket → ℕ → ℕ
come_in b now = b.tokens + (now - b.last_refill) * b.rate

-- The first pass at which the amount has come in.
unfoldable pub first_enough : TokenBucket → ℕ → List (ℕ × ℕ) → Option (ℕ × ℕ)
first_enough b amount [] = none
first_enough b amount ((now, back) ∷ rest) =
    let later = first_enough b amount rest in
    if leb amount (come_in b now) then some (now, back) else later

-- The clock does not run backwards from one pass to the next.
abbrev pub InOrder : ℕ → List (ℕ × ℕ) → Type 0
InOrder before [] = Unit
InOrder before ((now, back) ∷ rest) = (before ≤ now) × InOrder now rest

-- The bucket after one taking at the time `now`, and nothing else since.
abbrev pub taken_at : TokenBucket → ℕ → ℕ → TokenBucket
taken_at b amount now = record b {
  tokens = min b.capacity (come_in b now) - amount;
  last_refill = now;
}

abbrev Gets : ℕ → ℕ → TokenBucket → Option (ℕ × ℕ) → TokenBucket × Outcome → Type 0
Gets amount start b none r = r.1 ≡ waiting
Gets amount start b (some (now, back)) r = r ≡ (taken_at b amount now, waited (back - start))

module _ (amount : ℕ) (b : TokenBucket) (fits : amount ≤ b.capacity) where
  abbrev after_short : ℕ → TokenBucket
  after_short now = record b { tokens = level b now; last_refill = now }

  split_time :
      (now later : ℕ)
      → b.last_refill ≤ now
      → now ≤ later
      → (now - b.last_refill) * b.rate + (later - now) * b.rate ≡ (later - b.last_refill) * b.rate
  split_time now later h k =
      let e : (now - b.last_refill) + (later - now) ≡ later - b.last_refill = omega arith in
      omega (arith, ap (λ (x : ℕ). x * b.rate) e)

  same_test :
      (now later : ℕ)
      → b.last_refill ≤ now
      → now ≤ later
      → leb amount (come_in (after_short now) later) ≡ leb amount (come_in b later)
  unfolding level
  same_test now later h k = ground (arith, split_time now later h k)

  first_enough-after :
      (now before : ℕ) (rest : List (ℕ × ℕ))
      → b.last_refill ≤ now
      → now ≤ before
      → InOrder before rest
      → first_enough (after_short now) amount rest ≡ first_enough b amount rest
  unfolding first_enough
  first_enough-after now before [] h k o = refl
  first_enough-after now before ((t, back) ∷ rest) h k o =
      rw
        (
          same_test now t h (omega (arith, o.0)),
          first_enough-after now t rest h (omega (arith, o.0)) o.1,
        )
        refl

  found-later :
      (before : ℕ) (rest : List (ℕ × ℕ)) (t back : ℕ)
      → InOrder before rest
      → first_enough b amount rest ≡ some (t, back)
      → before ≤ t
  unfolding first_enough
  found-later before [] t back o e = absurd (cc e)
  found-later before ((now, back') ∷ rest) t back o e =
      elim (Bool-cases (leb amount (come_in b now))) [
        | inl here ↦
            let k : ◌≡◌ {A = Option (ℕ × ℕ)} (some (now, back')) (some (t, back)) = rw here at e in
            let l : now ≡ t = cc k in omega (arith, l, o.0)
        | inr later ↦
            let k = found-later now rest t back o.1 (rw later at e) in omega (arith, k, o.0)
      ]

  same_bucket :
      (now later : ℕ)
      → b.last_refill ≤ now
      → now ≤ later
      → taken_at (after_short now) amount later ≡ taken_at b amount later
  unfolding level
  same_bucket now later h k = ground (arith, split_time now later h k)

  Gets-after :
      (start now : ℕ) (rest : List (ℕ × ℕ)) (o : Option (ℕ × ℕ)) (r : TokenBucket × Outcome)
      → b.last_refill ≤ now
      → InOrder now rest
      → first_enough b amount rest ≡ o
      → Gets amount start (after_short now) o r
      → Gets amount start b o r
  Gets-after start now rest none r h o e g = g
  Gets-after start now rest (some (t, back)) r h o e g =
      g
      ∙ ap (λ (x : TokenBucket). (x, waited (back - start)))
          (same_bucket now t h (found-later now rest t back o e))

level-come_in : (b : TokenBucket) (now : ℕ) → level b now ≡ min b.capacity (come_in b now)
unfolding level
level-come_in b now = refl

loop-granted :
    (amount start now back : ℕ) (rest : List (ℕ × ℕ)) (b : TokenBucket)
    → amount ≤ b.capacity
    → amount ≤ come_in b now
    → acquire_loop amount start ((now, back) ∷ rest) b
      ≡ (taken_at b amount now, waited (back - start))
unfolding acquire_loop try_acquire
loop-granted amount start now back rest b fits h = ground (arith, level-come_in b now)

loop-Gets :
    (amount start : ℕ) (readings : List (ℕ × ℕ)) (b : TokenBucket)
    → amount ≤ b.capacity
    → InOrder b.last_refill readings
    → Gets amount start b (first_enough b amount readings) (acquire_loop amount start readings b)
unfolding first_enough acquire_loop
loop-Gets amount start [] b fits o = refl
loop-Gets amount start ((now, back) ∷ rest) b fits o =
    elim (Bool-cases (leb amount (come_in b now))) [
      | inl long ↦ rw long (loop-granted amount start now back rest b fits (ground arith))
      | inr short ↦
          let less : level b now < amount = ground (arith, level-come_in b now) in
          let next : TokenBucket = record b { tokens = level b now; last_refill = now } in
          rw
            (
              short,
              loop-sleep amount start now back rest b (amount - level b now) b.rate next
                  (fails amount now b less),
            )
            (Gets-after amount b fits start now rest (first_enough b amount rest) _ o.0 o.1 refl (
              rw (first_enough-after amount b fits now now rest o.0 (omega arith) o.1) at
                (loop-Gets amount start rest next fits o.1)))
    ]

found-some :
    (amount : ℕ) (early : List (ℕ × ℕ)) (now back : ℕ) (b : TokenBucket)
    → amount ≤ come_in b now
    → (t : ℕ) × (end : ℕ) × (first_enough b amount (early ++ (now, back) ∷ []) ≡ some (t, end))
unfolding first_enough
found-some amount [] now back b e =
    let k : leb amount (come_in b now) ≡ true = ground arith in (now, back, rw k refl)
found-some amount ((t, end) ∷ early) now back b e = elim (Bool-cases (leb amount (come_in b t))) [
  | inl here ↦ (t, end, rw here refl)
  | inr later ↦ rw later (found-some amount early now back b e)
]

positive : (amount : ℕ) → 0 < amount → nat_eq amount 0 ≡ false
positive amount h = ground arith

-- `acquire` refuses a positive amount above the capacity and leaves the bucket as it was. For any
-- other one it returns, if ever a pass comes at which the amount has come in at the rate, however
-- early or late the sleeps before it ended: it returns at the first such pass, takes the amount
-- once, and the bucket is otherwise as if nobody had asked before. (Nobody else takes from it.)
pub acquire-returns :
    (amount start : ℕ) (early : List (ℕ × ℕ)) (now back : ℕ) (b : TokenBucket)
    → 0 < amount
    → InOrder b.last_refill (early ++ (now, back) ∷ [])
    → amount ≤ come_in b now
    → let readings = early ++ (now, back) ∷ [] in
      ((b.capacity < amount) × (acquire amount start readings b ≡ (b, exceeds_capacity)))
      ⊎ ((amount ≤ b.capacity)
          × ((t : ℕ) × (end : ℕ) × (first_enough b amount readings ≡ some (t, end))
              × (acquire amount start readings b ≡ (taken_at b amount t, waited (end - start)))))
unfolding acquire
acquire-returns amount start early now back b h o e = elim (Bool-cases (ltb b.capacity amount)) [
  | inl over ↦ inl (ground arith, rw (positive amount h, over) refl)
  | inr under ↦
      let fits : amount ≤ b.capacity = ground arith in
      let (t, end, found) = found-some amount early now back b e in
      let got = loop-Gets amount start (early ++ (now, back) ∷ []) b fits o in
      inr (fits, (t, end, found, rw (positive amount h, under) (rw found at got)))
]
