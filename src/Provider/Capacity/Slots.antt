-- ===== src/Provider/Capacity/Slots.antt =====
-- The gauges and the semaphore of `CapacityController` in app/multi_provider.py.
use prismux.Prelude.{
  ℕ, zero, suc, ◌+◌, ◌-◌, ◌≤◌, ◌<◌, ◌≡◌, refl, max, Option, none, some, ℤ, arith, ap, sym,
}
use prismux.Limiter.{TokenBucket}
use prismux.Provider.Config.{ProviderConfig}
use prismux.Provider.Capacity.{
  Capacity, new, Taken, taken, too_much, take_from, Reserved, reserved, refused, spins, reserve,
  Outcome, acquired, rejected, blocked, looping, take_slot, with_tokens, take_tokens, with_request,
  take_request, acquire, release, free_slot, token,
}

-- The slots taken and free together, where the provider has a limit.
abbrev pub UsesSlots : Option ℕ → Option ℕ → Type 0
UsesSlots none none = Unit
UsesSlots (some before) (some after) = before ≡ after + 1
UsesSlots _ _ = ⊥

-- What an `acquire` does to the gauges: on success the request moves from the queue to the active
-- ones and takes a slot; on an exception everything is as before; while it waits it is queued.
abbrev pub Moves : Capacity → Capacity → Outcome → Type 0
Moves c d (acquired ms) =
    (d.queued ≡ c.queued) × (d.active ≡ c.active + 1) × UsesSlots c.semaphore d.semaphore
Moves c d rejected = (d.queued ≡ c.queued) × (d.active ≡ c.active) × (d.semaphore ≡ c.semaphore)
Moves c d blocked = (d.queued ≡ c.queued + 1) × (d.active ≡ c.active) × (d.semaphore ≡ c.semaphore)
Moves c d looping = (d.queued ≡ c.queued + 1) × (d.active ≡ c.active) × (d.semaphore ≡ c.semaphore)

module _ (ticks : ℕ) where
  -- `d` is `c` with one more caller queued, and perhaps other buckets.
  abbrev Entered : Capacity → Capacity → Type 0
  Entered c d = (d.queued ≡ c.queued + 1) × (d.active ≡ c.active) × (d.semaphore ≡ c.semaphore)

  slot-Moves :
      (started now : ℕ) (c d : Capacity) (s : Option ℕ)
      → Entered c d
      → d.semaphore ≡ s
      → let r = take_slot ticks started now s d in Moves c r.0 r.1
  slot-Moves started now c d none e k = ground arith
  slot-Moves started now c d (some zero) e k = ground arith
  slot-Moves started now c d (some (suc n)) e k = ground arith

  tokens-Moves :
      (reservation started now : ℕ) (c d : Capacity) (b : Option TokenBucket)
      → Entered c d
      → let r = take_tokens ticks reservation started now b d in Moves c r.0 r.1
  tokens-Moves reservation started now c d none e = slot-Moves started now c d d.semaphore e refl
  tokens-Moves reservation started now c d (some b) e =
      go (reserve ticks (suc (max 1 reservation)) (max 1 reservation) now b)
    where
      go : (r : Reserved) → let m = with_tokens ticks started r d in Moves c m.0 m.1
      go (reserved b' now') =
          slot-Moves started now' c (record d { token_bucket = some b' }) d.semaphore e refl
      go refused = ground arith
      go spins = ground arith

  request-Moves :
      (reservation started : ℕ) (c d : Capacity) (b : Option TokenBucket)
      → Entered c d
      → let r = take_request ticks reservation started b d in Moves c r.0 r.1
  request-Moves reservation started c d none e =
      tokens-Moves reservation started started c d d.token_bucket e
  request-Moves reservation started c d (some b) e = go (take_from (token ticks) started b)
    where
      go : (t : Taken) → let m = with_request ticks reservation started t d in Moves c m.0 m.1
      go (taken b' now) =
          tokens-Moves reservation started now c (record d { request_bucket = some b' })
            d.token_bucket e
      go too_much = ground arith

  -- Whatever its buckets do, an `acquire` that succeeds moves its request from the queue to the
  -- active ones and takes one slot of the semaphore; one that raises leaves the gauges and the
  -- semaphore as they were; and one that has not returned stands in the queue, without a slot.
  pub acquire-Moves :
      (reservation started : ℕ) (c : Capacity)
      → let r = acquire ticks reservation started c in Moves c r.0 r.1
  unfolding acquire
  acquire-Moves reservation started c =
      request-Moves reservation started c (record c { queued = c.queued + 1 }) c.request_bucket
        (refl, refl, refl)

  -- A request that was let in and has been released leaves the gauges and the semaphore as they
  -- were before it, whatever was reserved and used.
  pub release-acquire :
      (reservation started amount now ms : ℕ) (actual : Option ℤ) (c : Capacity)
      → (acquire ticks reservation started c).1 ≡ acquired ms
      → let d = release ticks amount actual now (acquire ticks reservation started c).0 in
        (d.queued ≡ c.queued) × (d.active ≡ c.active) × (d.semaphore ≡ c.semaphore)
  unfolding release
  release-acquire reservation started amount now ms actual c e =
      let m : Moves c (acquire ticks reservation started c).0 (acquired ms) =
        rw e at (acquire-Moves reservation started c) in
      (m.0, omega (arith, m.1), free_again c.semaphore _ m.2)
    where
      free_again : (s t : Option ℕ) → UsesSlots s t → free_slot ticks t ≡ s
      free_again none none u = refl
      free_again (some n) (some k) u = ap some (sym u)
      free_again none (some k) u = absurd u
      free_again (some n) none u = absurd u

  -- What can happen to the limits of one provider: a call that was let in, one that was not, and
  -- the release of a request that is active.
  pub data Step (c : Capacity) : Capacity → Type 0 where
    entered :
        (reservation started : ℕ) (d : Capacity) (o : Outcome)
        → acquire ticks reservation started c ≡ (d, o)
        → Step c d
    released :
        (amount : ℕ) (actual : Option ℤ) (now : ℕ)
        → 0 < c.active
        → Step c (release ticks amount actual now c)

  pub data Reach (c : Capacity) : Capacity → Type 0 where
    here : Reach c c
    next : {d e : Capacity} → Reach c d → Step d e → Reach c e

  -- The active requests and the free slots make up the limit.
  abbrev Full : Option ℕ → Option ℕ → ℕ → Type 0
  Full none s active = s ≡ none
  Full (some limit) none active = ⊥
  Full (some limit) (some free) active = active + free ≡ limit

  Full-Moves :
      (limit : Option ℕ) (c d : Capacity) (o : Outcome)
      → Moves c d o
      → Full limit c.semaphore c.active
      → Full limit d.semaphore d.active
  Full-Moves limit c d (acquired ms) m f = taken_slot limit c.semaphore d.semaphore m.2 f
    where
      taken_slot : (l s t : Option ℕ) → UsesSlots s t → Full l s c.active → Full l t d.active
      taken_slot none none none u f = refl
      taken_slot (some l) (some s) (some t) u f = omega (arith, m.1)
      taken_slot none (some s) t u f = cc f
      taken_slot none none (some t) u f = absurd u
      taken_slot (some l) none t u f = absurd f
      taken_slot (some l) (some s) none u f = absurd u
  Full-Moves limit c d rejected m f = rw (m.1, m.2) f
  Full-Moves limit c d blocked m f = rw (m.1, m.2) f
  Full-Moves limit c d looping m f = rw (m.1, m.2) f

  Full-release :
      (limit s : Option ℕ) (active : ℕ)
      → 0 < active
      → Full limit s active
      → Full limit (free_slot ticks s) (active - 1)
  Full-release none none active h f = refl
  Full-release none (some s) active h f = cc f
  Full-release (some l) none active h f = absurd f
  Full-release (some l) (some s) active h f = omega arith

  Step-Full :
      (limit : Option ℕ) {c d : Capacity}
      → Step c d
      → Full limit c.semaphore c.active
      → Full limit d.semaphore d.active
  unfolding release
  Step-Full limit {c} (entered reservation started d o e) f =
      Full-Moves limit c d o (rw e at (acquire-Moves reservation started c)) f
  Step-Full limit {c} (released amount actual now h) f = Full-release limit c.semaphore c.active h f

  Reach-Full :
      (limit : Option ℕ) {c d : Capacity}
      → Reach c d
      → Full limit c.semaphore c.active
      → Full limit d.semaphore d.active
  Reach-Full limit here f = f
  Reach-Full limit (next r s) f = Step-Full limit s (Reach-Full limit r f)

  Full-le : (limit s : Option ℕ) (active n : ℕ) → Full limit s active → limit ≡ some n → active ≤ n
  Full-le none s active n f e = cc e
  Full-le (some l) none active n f e = absurd f
  Full-le (some l) (some s) active n f e = let k : l ≡ n = ground arith in omega arith

  Full-new : (limit : Option ℕ) → Full limit limit 0
  Full-new none = refl
  Full-new (some n) = omega arith

  -- However calls interleave with releases of active requests, never more requests are active than
  -- `max_concurrency` allows.
  pub active-le-max_concurrency :
      (config : ProviderConfig) (now limit : ℕ) {d : Capacity}
      → config.max_concurrency ≡ some limit
      → Reach (new config now) d
      → d.active ≤ limit
  unfolding new
  active-le-max_concurrency config now limit {d} e r =
      Full-le config.max_concurrency d.semaphore d.active limit
        (Reach-Full config.max_concurrency r (Full-new config.max_concurrency)) e
