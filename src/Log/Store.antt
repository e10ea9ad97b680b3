-- ===== src/Log/Store.antt =====
-- The request log that app/db.py writes: the tables `requests`, `request_stats` and
-- `request_attempts`, each with its newest row first. A payload is kept as the value that its JSON
-- text denotes, and the time is the argument `now`.
pub mod Saved
use prismux.Prelude.{
  ℕ, ◌+◌, Bool, true, false, Option, none, some, List, [], ◌∷◌, Str, ℤ, pos, negsuc, ltb,
  if◌then◌else◌,
}
use prismux.Json.{Value, null}
use prismux.Log.Status.{ErrorType}

-- The columns that `requests` and `request_stats` share. The token counts are values of JSON in the
-- call of `insert_request`, and integers in the rows.
pub record Entry (T : Type 0) : Type 0 where
  pub model : Str
  pub status_code : Option ℕ
  pub wait_ms : ℕ
  pub prompt_tokens : T
  pub completion_tokens : T
  pub model_response_ms : Option ℕ
  pub time_to_first_token_ms : Option ℕ
  pub input_cost : Option ℤ
  pub output_cost : Option ℤ
  pub estimated_cost : Option ℤ
  pub error_type : Option ErrorType
  pub provider_id : Option Str
  pub upstream_model : Option Str
  pub route_alias : Option Str
  pub attempt_count : ℕ

pub record RequestRow : Type 0 where
  pub id : ℕ
  pub timestamp : ℕ
  pub entry : Entry (Option ℤ)
  pub request_payload : Value
  pub response_payload : Value

pub record StatRow : Type 0 where
  pub id : ℕ
  pub timestamp : ℕ
  pub entry : Entry (Option ℤ)

-- An attempt of app/main.py, before it has a request's id.
pub record Attempt : Type 0 where
  pub attempt_number : ℕ
  pub provider_id : Str
  pub upstream_model : Str
  pub wait_ms : ℕ
  pub response_ms : Option ℕ
  pub status_code : Option ℕ
  pub error_type : Option ErrorType
  pub fallback_reason : Option Str

pub record AttemptRow : Type 0 where
  pub request_id : ℕ
  pub attempt : Attempt
  pub created_at : ℕ

-- `next_id` is the sequence of the column `requests.id`.
pub record Store : Type 0 where
  pub requests : List RequestRow
  pub stats : List StatRow
  pub attempts : List AttemptRow
  pub next_id : ℕ

-- How a transaction ends: it is committed, or an exception leaves the call, before the commit or
-- after it (a failure of the database, or a cancellation).
pub data Commit : Type 0 where
  committed lost interrupted : Commit

-- The database as a request meets it: what the driver makes of a value other than `None` for an
-- INTEGER column (`none` if it raises), and the end of the request's n-th transaction.
pub record Database : Type 0 where
  pub as_integer : Value → Option ℤ
  pub commit : ℕ → Commit

-- INTEGER has 32 bits.
abbrev pub fits_integer : ℤ → Bool
fits_integer (pos n) = ltb n 2147483648
fits_integer (negsuc n) = ltb n 2147483648

abbrev pub in_range : Option ℤ → Option (Option ℤ)
in_range none = none
in_range (some n) = if fits_integer n then some (some n) else none

unfoldable pub integer_column : Database → Value → Option (Option ℤ)
integer_column db null = some none
integer_column db v = in_range (db.as_integer v)

abbrev pub columns : Entry Value → Option ℤ → Option ℤ → Entry (Option ℤ)
columns entry prompt_tokens completion_tokens = record {
  model = entry.model;
  status_code = entry.status_code;
  wait_ms = entry.wait_ms;
  prompt_tokens = prompt_tokens;
  completion_tokens = completion_tokens;
  model_response_ms = entry.model_response_ms;
  time_to_first_token_ms = entry.time_to_first_token_ms;
  input_cost = entry.input_cost;
  output_cost = entry.output_cost;
  estimated_cost = entry.estimated_cost;
  error_type = entry.error_type;
  provider_id = entry.provider_id;
  upstream_model = entry.upstream_model;
  route_alias = entry.route_alias;
  attempt_count = entry.attempt_count;
}

abbrev pub bound : Entry Value → Option (Option ℤ) → Option (Option ℤ) → Option (Entry (Option ℤ))
bound entry (some prompt) (some completion) = some (columns entry prompt completion)
bound entry _ _ = none

-- The store with the row in both tables.
unfoldable pub add_rows : ℕ → Entry (Option ℤ) → Value → Value → Store → Store
add_rows now entry request_payload response_payload s = record s {
  requests =
      record {
        id = s.next_id;
        timestamp = now;
        entry = entry;
        request_payload = request_payload;
        response_payload = response_payload;
      }
      ∷ s.requests;
  stats = record { id = s.next_id; timestamp = now; entry = entry } ∷ s.stats;
  next_id = s.next_id + 1;
}

-- A lost transaction does not give its number of the sequence back.
abbrev pub inserted :
    ℕ → Value → Value → Store → Option (Entry (Option ℤ)) → Commit → Option ℕ × Store
inserted now request_payload response_payload s none end = (none, s)
inserted now request_payload response_payload s (some entry) committed =
    (some s.next_id, add_rows now entry request_payload response_payload s)
inserted now request_payload response_payload s (some entry) lost =
    (none, record s { next_id = s.next_id + 1 })
inserted now request_payload response_payload s (some entry) interrupted =
    (none, add_rows now entry request_payload response_payload s)

-- The row's id, `cursor.lastrowid`, or an exception, and the store after it.
unfoldable pub insert_request :
    Database → ℕ → Entry Value → Value → Value → Store → Option ℕ × Store
insert_request db now entry request_payload response_payload s =
    inserted now request_payload response_payload s
      (bound entry (integer_column db entry.prompt_tokens)
        (integer_column db entry.completion_tokens))
      (db.commit 0)

-- The row of an attempt, in the transaction that `insert_request_attempt` commits.
unfoldable pub insert_request_attempt : ℕ → ℕ → Attempt → Store → Store
insert_request_attempt now request_id attempt s = record s {
  attempts = record { request_id = request_id; attempt = attempt; created_at = now } ∷ s.attempts;
}

-- The store before the transaction and after it, and what follows a commit.
abbrev pub after_commit : Commit → Store → Store → Store × Bool → Store × Bool
after_commit committed before after next = next
after_commit lost before after next = (before, false)
after_commit interrupted before after next = (after, false)

-- `save_attempts` of app/main.py, one transaction for each attempt, numbered from `n`; `false` is an
-- exception.
unfoldable pub save_attempts : Database → ℕ → ℕ → ℕ → List Attempt → Store → Store × Bool
save_attempts db n now request_id [] s = (s, true)
save_attempts db n now request_id (a ∷ rest) s =
    let after = insert_request_attempt now request_id a s in
    after_commit (db.commit n) s after (save_attempts db (n + 1) now request_id rest after)
