-- ===== src/Limiter/Tests.antt =====
-- Runs of app/limiter.py's bucket, and the theorems about it at concrete inputs.
use prismux.Prelude.{ℕ, ◌≤◌, ◌≡◌, ◌⊎◌, ◌<◌, ◌+◌, ◌*◌, refl, List, [], ◌∷◌, ◌++◌, ◌-◌, some, arith}
use prismux.Limiter.{
  TokenBucket, waited, exceeds_capacity, level, try_acquire, refund, reconfigure, acquire,
  acquire_loop,
}
use prismux.Limiter.Bounds.{
  Event, tried, refunded, IsWithin, run, taken, given_back, IsWithin-capacity, admission_bound,
}
use prismux.Limiter.Waits.{first_enough, taken_at, acquire-returns}

-- Forty units to the tick, and room for 2400: one request and 60 ticks to the next.
abbrev bucket : TokenBucket
bucket = record { rate = 40; capacity = 2400; tokens = 2400; last_refill = 0 }

abbrev calls : List Event
calls = tried 2400 0 ∷ tried 2400 10 ∷ refunded 400 20 ∷ tried 2400 50 ∷ []

two_requests : taken bucket calls ≡ 4800
unfolding taken try_acquire refund
two_requests = refl

second_waits :
    (acquire 2400 10 ((10, 10) ∷ (60, 61) ∷ []) (run bucket (tried 2400 0 ∷ []))).1 ≡ waited 51
unfolding acquire acquire_loop try_acquire run
second_waits = refl

IsWithin-capacity_example :
    ((amount now : ℕ) → IsWithin (try_acquire amount now bucket).0)
    × ((amount now : ℕ) → IsWithin (refund amount now bucket))
    × ((rpm capacity now : ℕ) → IsWithin (reconfigure rpm capacity now bucket))
    × ((now : ℕ) → level bucket now ≤ 2400)
IsWithin-capacity_example = IsWithin-capacity bucket (omega arith)

admission_bound_example : taken bucket calls ≤ 2400 + 50 * 40 + given_back calls
admission_bound_example = admission_bound bucket calls 50 (omega arith) (omega arith)

abbrev early : List (ℕ × ℕ)
early = (10, 10) ∷ (59, 59) ∷ []

-- The second of the passes comes too early, by one tick.
acquire-returns_example :
    let readings = early ++ (60, 61) ∷ [] in
    let b = run bucket (tried 2400 0 ∷ []) in
    ((b.capacity < 2400) × (acquire 2400 10 readings b ≡ (b, exceeds_capacity)))
    ⊎ ((2400 ≤ b.capacity)
        × ((t : ℕ) × (end : ℕ) × (first_enough b 2400 readings ≡ some (t, end))
            × (acquire 2400 10 readings b ≡ (taken_at b 2400 t, waited (end - 10)))))
unfolding run try_acquire level
acquire-returns_example =
    acquire-returns 2400 10 early 60 61 (run bucket (tried 2400 0 ∷ [])) (omega arith)
      (omega arith, (omega arith, (omega arith, tt))) (omega arith)
