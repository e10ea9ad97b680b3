-- ===== src/Forward/EmbeddingsRecorded.antt =====
-- What `forward_embeddings_request` of app/main.py leaves in the log, on each way out.
use prismux.Prelude.{ℕ, ℤ, ◌≡◌, ◌⊎◌, Option, none, some, text_eq}
use prismux.Log.Store.{Entry, Store, Database}
use prismux.Forward.{World}
use prismux.Forward.Recorded.{IsEarly}
use prismux.Forward.Logged.{Recorded, Leaves}
use prismux.Forward.Embeddings
use prismux.Forward.Embeddings.{Forwarded, returns, raises, hangs}

-- The status that the caller gets for a recorded one: 502 where no provider answered.
abbrev pub caller_status : Option ℕ → ℕ
caller_status none = 502
caller_status (some code) = code

abbrev pub Logs : Database → Store → World → Forwarded → Type 0
Logs db s w (returns r) =
    ((entry : Entry (Option ℤ)) × Recorded s w.store entry r.response_payload r.attempts
      × (r.status_code ≡ caller_status entry.status_code))
    ⊎ ((w.store ≡ s) × IsEarly r.status_code)
Logs db s w raises = Leaves db s w.store
Logs db s w hangs = w.store ≡ s
