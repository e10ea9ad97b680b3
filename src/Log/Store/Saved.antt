-- ===== src/Log/Store/Saved.antt =====
-- What the log holds after a request was recorded (app/db.py, `save_attempts` of app/main.py).
use prismux.Prelude.{
  ℕ, ◌+◌, Bool, true, false, ◌≢◌, ◌≡◌, refl, ap, sym, ◌∙◌, nat_eq, List, [], ◌∷◌, ◌++◌, arith,
  if◌then◌else◌,
}
use prismux.Log.Store.{
  Attempt, AttemptRow, Store, Commit, committed, lost, interrupted, Database,
  insert_request_attempt, after_commit, save_attempts,
}

-- `SELECT * FROM request_attempts WHERE request_id = ?` in the order of the insertions.
unfoldable pub attempts_of : ℕ → List AttemptRow → List Attempt
attempts_of request_id [] = []
attempts_of request_id (row ∷ rows) =
    let rest = attempts_of request_id rows in
    if nat_eq row.request_id request_id then rest ++ (row.attempt ∷ []) else rest

nat_eq_self : (n : ℕ) → nat_eq n n ≡ true
nat_eq_self n = ground arith

append_cons :
    {A : Type 0} (xs : List A) (a : A) (ys : List A) → (xs ++ (a ∷ [])) ++ ys ≡ xs ++ (a ∷ ys)
append_cons [] a ys = refl
append_cons (x ∷ xs) a ys = ap (◌∷◌ x) (append_cons xs a ys)

pub append_nil : {A : Type 0} (xs : List A) → xs ++ [] ≡ xs
append_nil [] = refl
append_nil (x ∷ xs) = ap (◌∷◌ x) (append_nil xs)

-- Some of the attempts were saved, in their order, and nothing else was written; all of them if no
-- exception came, and an exception is that of a transaction.
pub record Saves (db : Database) (request_id : ℕ) (before after : Store) (attempts : List Attempt)
    (complete : Bool) : Type 0 where
  pub saved : List Attempt
  pub rest : List Attempt
  pub parts : saved ++ rest ≡ attempts
  pub whole : complete ≡ true → saved ≡ attempts
  pub fault : complete ≡ false → (n : ℕ) × (db.commit n ≢ committed)
  pub rows : attempts_of request_id after.attempts ≡ attempts_of request_id before.attempts ++ saved
  pub requests : after.requests ≡ before.requests
  pub stats : after.stats ≡ before.stats
  pub next_id : after.next_id ≡ before.next_id

module _ (db : Database) (now i : ℕ) (a : Attempt) (rest : List Attempt) (s : Store) where
  attempts_of-insert :
      attempts_of i (insert_request_attempt now i a s).attempts
      ≡ attempts_of i s.attempts ++ (a ∷ [])
  unfolding attempts_of insert_request_attempt
  attempts_of-insert = rw (nat_eq_self i) refl

  after_commit-Saves :
      (n : ℕ) (c : Commit) (next : Store × Bool)
      → db.commit n ≡ c
      → Saves db i (insert_request_attempt now i a s) next.0 rest next.1
      → let r = after_commit c s (insert_request_attempt now i a s) next in
        Saves db i s r.0 (a ∷ rest) r.1
  unfolding insert_request_attempt
  after_commit-Saves n committed next e h = record {
    saved = a ∷ h.saved;
    rest = h.rest;
    parts = ap (◌∷◌ a) h.parts;
    whole = λ k. ap (◌∷◌ a) (h.whole k);
    fault = h.fault;
    rows =
        h.rows
        ∙ ap (λ (x : List Attempt). x ++ h.saved) attempts_of-insert
        ∙ append_cons (attempts_of i s.attempts) a h.saved;
    requests = h.requests;
    stats = h.stats;
    next_id = h.next_id;
  }
  after_commit-Saves n lost next e h = record {
    saved = [];
    rest = a ∷ rest;
    parts = refl;
    whole = λ k. absurd (cc k);
    fault = λ k. (n, λ l. cc (e, l));
    rows = sym (append_nil (attempts_of i s.attempts));
    requests = refl;
    stats = refl;
    next_id = refl;
  }
  after_commit-Saves n interrupted next e h = record {
    saved = a ∷ [];
    rest = rest;
    parts = refl;
    whole = λ k. absurd (cc k);
    fault = λ k. (n, λ l. cc (e, l));
    rows = attempts_of-insert;
    requests = refl;
    stats = refl;
    next_id = refl;
  }

pub save_attempts-Saves :
    (db : Database) (n now request_id : ℕ) (attempts : List Attempt) (s : Store)
    → let r = save_attempts db n now request_id attempts s in Saves db request_id s r.0 attempts r.1
unfolding save_attempts
save_attempts-Saves db n now i [] s = record {
  saved = [];
  rest = [];
  parts = refl;
  whole = λ e. refl;
  fault = λ e. absurd (cc e);
  rows = sym (append_nil (attempts_of i s.attempts));
  requests = refl;
  stats = refl;
  next_id = refl;
}
save_attempts-Saves db n now i (a ∷ rest) s =
    after_commit-Saves db now i a rest s n (db.commit n) _ refl
      (save_attempts-Saves db (n + 1) now i rest (insert_request_attempt now i a s))
