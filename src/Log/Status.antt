-- ===== src/Log/Status.antt =====
-- The classification of logged requests in app/db.py: by Python code (`status_label`,
-- `classify_error_type`) and by the SQL conditions of `STATUS_CONDITIONS`.
pub mod Partition
pub mod Tests
use prismux.Prelude.{
  ℕ, Bool, true, false, not, ◌&&◌, ◌||◌, Option, none, some, leb, ltb, nat_eq, Str, if◌then◌else◌,
}

-- The labels "success", "429" and "error".
pub data Label : Type 0 where
  success too_many error : Label

unfoldable pub status_label : Option ℕ → Label
status_label none = error
status_label (some code) =
    if nat_eq code 429 then too_many else if leb 400 code then error else success

pub data ErrorType : Type 0 where
  rate_limited server_error client_error timeout unknown connection blocked_destination cancelled :
      ErrorType
  -- The name of an exception that ends a stream.
  interrupted : Str → ErrorType

unfoldable pub classify_error_type : Option ℕ → Option ErrorType
classify_error_type none = none
classify_error_type (some code) =
    if nat_eq code 429
    then some rate_limited
    else if leb 500 code && ltb code 600
    then some server_error
    else if leb 400 code && ltb code 500
    then some client_error
    else none

-- The columns of a `request_stats` row that classify it; SQL's NULL is `none`.
pub record Stat : Type 0 where
  pub status_code : Option ℕ
  pub wait_ms : Option ℕ

-- SQL's truth values: NULL is `none`. A WHERE clause keeps a row if its condition is true.
abbrev pub Sql : Type 0
Sql = Option Bool

abbrev pub sql_not : Sql → Sql
sql_not none = none
sql_not (some b) = some (not b)

abbrev pub sql_and : Sql → Sql → Sql
sql_and (some false) y = some false
sql_and (some true) y = y
sql_and none (some false) = some false
sql_and none _ = none

abbrev pub sql_or : Sql → Sql → Sql
sql_or (some true) y = some true
sql_or (some false) y = y
sql_or none (some true) = some true
sql_or none _ = none

abbrev pub compare_with : (ℕ → ℕ → Bool) → Option ℕ → ℕ → Sql
compare_with test none k = none
compare_with test (some n) k = some (test n k)

abbrev pub is_null : Option ℕ → Sql
is_null none = some true
is_null (some n) = some false

abbrev pub at_least : ℕ → ℕ → Bool
at_least n k = leb k n

abbrev pub more_than : ℕ → ℕ → Bool
more_than n k = ltb k n

abbrev pub holds : Sql → Bool
holds none = false
holds (some b) = b

pub data Status : Type 0 where
  as_error as_throttled as_success : Status

unfoldable pub status_condition : Status → Stat → Sql
status_condition as_error r = sql_or (is_null r.status_code) (
    sql_and (compare_with at_least r.status_code 400)
      (sql_not (compare_with nat_eq r.status_code 429)))
status_condition as_throttled r =
    sql_or (compare_with nat_eq r.status_code 429)
      (sql_and (compare_with ltb r.status_code 400) (compare_with more_than r.wait_ms 2000))
status_condition as_success r = sql_and (sql_not (is_null r.status_code)) (
    sql_and (compare_with ltb r.status_code 400)
      (sql_and (sql_not (compare_with nat_eq r.status_code 429)) (compare_with leb r.wait_ms 2000)))

-- The test of `chart_status_breakdown` on one row, with `row["wait_ms"] or 0`.
abbrev pub wait_or_zero : Option ℕ → ℕ
wait_or_zero none = 0
wait_or_zero (some n) = n

abbrev pub status_of_label : Label → Option ℕ → Status
status_of_label error wait = as_error
status_of_label too_many wait = as_throttled
status_of_label success wait = if ltb 2000 (wait_or_zero wait) then as_throttled else as_success

unfoldable pub chart_status : Stat → Status
chart_status r = status_of_label (status_label r.status_code) r.wait_ms
