-- ===== src/Forward/Logged.antt =====
-- What `insert_request` and `save_attempts` of a request leave in the log, by the ends of their
-- transactions.
use prismux.Prelude.{
  ℕ, ◌+◌, ◌≡◌, ◌≢◌, refl, sym, ap, ◌∙◌, ◌⊎◌, inl, inr, Bool, true, false, Option, none, some, List,
  [], ◌∷◌, ◌++◌, length, ℤ,
}
use prismux.Json.{Value}
use prismux.Log.Store.{
  Entry, RequestRow, StatRow, Attempt, Store, Database, Commit, committed, lost, interrupted,
  integer_column, columns, bound, add_rows, inserted, insert_request,
}
use prismux.Log.Store.Saved.{attempts_of, append_nil, Saves, save_attempts-Saves}
use prismux.Forward.{World, Progress, with_attempts, log}

-- One more request, in both tables under the same new id and with the same columns, and attempts
-- of it.
pub record Inserted (before after : Store) (entry : Entry (Option ℤ)) (response : Value)
    (attempts : List Attempt) : Type 0 where
  pub request :
      (row : RequestRow) × (after.requests ≡ row ∷ before.requests)
      × ((row.id ≡ before.next_id) × (row.entry ≡ entry) × (row.response_payload ≡ response))
  pub stat :
      (row : StatRow) × (after.stats ≡ row ∷ before.stats)
      × ((row.id ≡ before.next_id) × (row.entry ≡ entry))
  pub saved :
      attempts_of before.next_id after.attempts
      ≡ attempts_of before.next_id before.attempts ++ attempts
  pub sequence : after.next_id ≡ before.next_id + 1

-- The request with all its attempts, as many as the row says.
pub record Recorded (before after : Store) (entry : Entry (Option ℤ)) (response : Value)
    (attempts : List Attempt) : Type 0 where
  pub inserted : Inserted before after entry response attempts
  pub counted : entry.attempt_count ≡ length attempts

-- The three tables are as they were.
pub record Untouched (before after : Store) : Type 0 where
  pub requests : after.requests ≡ before.requests
  pub stats : after.stats ≡ before.stats
  pub attempts : after.attempts ≡ before.attempts

-- The request with the first of its attempts, where a transaction was not committed or was followed
-- by an exception; the row counts the attempts that were not saved too.
pub record Partly (db : Database) (before after : Store) : Type 0 where
  pub fault : (n : ℕ) × (db.commit n ≢ committed)
  pub entry : Entry (Option ℤ)
  pub response : Value
  pub first : List Attempt
  pub rest : List Attempt
  pub inserted : Inserted before after entry response first
  pub counted : entry.attempt_count ≡ length (first ++ rest)

-- What an exception can leave in the log.
abbrev pub Leaves : Database → Store → Store → Type 0
Leaves db before after = Untouched before after ⊎ Partly db before after

pub same-Leaves : (db : Database) (before after : Store) → after ≡ before → Leaves db before after
same-Leaves db before after h =
    rw h (inl (record { requests = refl; stats = refl; attempts = refl }))

-- The log after a call of `log`: with all of the request, its token counts those that the driver
-- made of the values, or as an exception leaves it.
abbrev pub Ends : Database → Store → Entry Value → Value → List Attempt → World × Bool → Type 0
Ends db s entry response attempts (w, true) =
    (prompt : Option ℤ) × (completion : Option ℤ) × (integer_column db entry.prompt_tokens
      ≡ some prompt)
    × (integer_column db entry.completion_tokens ≡ some completion)
    × Recorded s w.store (columns entry prompt completion) response attempts
Ends db s entry response attempts (w, false) = Leaves db s w.store

module _ (db : Database) (now : ℕ) (entry : Entry Value) (request response : Value) (p : Progress)
    (counts : entry.attempt_count ≡ length p.attempts) where
  module _ (prompt completion : Option ℤ)
      (is_prompt : integer_column db entry.prompt_tokens ≡ some prompt)
      (is_completion : integer_column db entry.completion_tokens ≡ some completion) where
    rows-Inserted :
        (after : Store) (saved : List Attempt)
        → let s = p.world.store in
          let t = add_rows now (columns entry prompt completion) request response s in
          (after.requests ≡ t.requests)
          → (after.stats ≡ t.stats)
          → (after.next_id ≡ t.next_id)
          → (attempts_of s.next_id after.attempts ≡ attempts_of s.next_id s.attempts ++ saved)
          → Inserted s after (columns entry prompt completion) response saved
    unfolding add_rows
    rows-Inserted after saved r t n a = record {
      request = (_, r, (refl, refl, refl));
      stat = (_, t, (refl, refl));
      saved = a;
      sequence = n;
    }

    saved-Ends :
        (r : Store × Bool)
        → let s = p.world.store in
          let t = add_rows now (columns entry prompt completion) request response s in
          Saves db s.next_id t r.0 p.attempts r.1
          → Ends db s entry response p.attempts (record p.world { store = r.0 }, r.1)
    unfolding add_rows
    saved-Ends (after, true) k = (
      prompt,
      completion,
      is_prompt,
      is_completion,
      record {
        inserted =
            rw (k.whole refl) at (rows-Inserted after k.saved k.requests k.stats k.next_id k.rows);
        counted = counts;
      },
    )
    saved-Ends (after, false) k = inr (record {
      fault = k.fault refl;
      entry = columns entry prompt completion;
      response = response;
      first = k.saved;
      rest = k.rest;
      inserted = rows-Inserted after k.saved k.requests k.stats k.next_id k.rows;
      counted = counts ∙ ap length (sym k.parts);
    })

    inserted-Ends :
        (c : Commit)
        → db.commit 0 ≡ c
        → Ends db p.world.store entry response p.attempts (
            with_attempts db now p (
              inserted now request response p.world.store
                (some (columns entry prompt completion))
                c))
    unfolding add_rows
    inserted-Ends committed e = saved-Ends _ (save_attempts-Saves db 1 now _ p.attempts _)
    inserted-Ends lost e = inl (record { requests = refl; stats = refl; attempts = refl })
    inserted-Ends interrupted e = inr (record {
      fault = (0, λ k. cc (e, k));
      entry = columns entry prompt completion;
      response = response;
      first = [];
      rest = p.attempts;
      inserted = rows-Inserted _ [] refl refl refl (sym (append_nil _));
      counted = counts;
    })

  bound-Ends :
      (o q : Option (Option ℤ))
      → integer_column db entry.prompt_tokens ≡ o
      → integer_column db entry.completion_tokens ≡ q
      → Ends db p.world.store entry response p.attempts (
          with_attempts db now p
            (inserted now request response p.world.store (bound entry o q) (db.commit 0)))
  bound-Ends none q e f = inl (record { requests = refl; stats = refl; attempts = refl })
  bound-Ends (some m) none e f = inl (record { requests = refl; stats = refl; attempts = refl })
  bound-Ends (some m) (some n) e f = inserted-Ends m n e f (db.commit 0) refl

  pub log-Ends :
      (s : Store)
      → p.world.store ≡ s
      → Ends db s entry response p.attempts (log db now entry request response p)
  unfolding log insert_request
  log-Ends s h = rw (sym h) (bound-Ends _ _ refl refl)
