-- ===== src/Auth/Throttle/Tests.antt =====
-- `LoginThrottle` of app/auth.py at a concrete history.
use prismux.Prelude.{◌≡◌, refl, lookup, List, [], ◌∷◌, ltb, text, arith}
use prismux.Auth.Throttle.{LoginThrottle, events_of, allowed}
use prismux.Auth.Throttle.Window.{Call, failed, succeeded, run, recent, allowed-recent}

-- Two attempts in ten seconds.
abbrev throttle : LoginThrottle
throttle = record { attempts = 2; window = 10; events = [] }

abbrev calls : List Call
calls =
    failed (text "ann") 7
    ∷ failed (text "bob") 6
    ∷ failed (text "ann") 5
    ∷ succeeded (text "ann")
    ∷ []

allowed-recent_example :
    (allowed (text "ann") 15 (run calls throttle)).1 ≡ ltb (recent 10 (text "ann") 15 calls) 2
unfolding events_of lookup
allowed-recent_example =
    allowed-recent (text "ann") throttle calls 15 refl
      (omega arith, (omega arith, (omega arith, tt)))
