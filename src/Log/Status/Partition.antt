-- ===== src/Log/Status/Partition.antt =====
-- The two classifications of app/db.py agree, and leave no request out.
use prismux.Prelude.{ℕ, ◌≡◌, ◌↔◌, true, Option, none, some, arith}
use prismux.Log.Status.{
  Stat, Status, as_error, as_throttled, as_success, status_condition, holds, chart_status,
  status_label,
}

-- Every row of the request log with a wait satisfies exactly one of the three SQL conditions, and
-- it is the one by which the status chart counts it.
pub status_condition-chart_status :
    (code : Option ℕ) (wait : ℕ) (s : Status)
    → let r : Stat = record { status_code = code; wait_ms = some wait } in
      (holds (status_condition s r) ≡ true) ↔ (s ≡ chart_status r)
unfolding status_condition chart_status status_label
status_condition-chart_status none wait as_error = ground arith
status_condition-chart_status none wait as_throttled = ground arith
status_condition-chart_status none wait as_success = ground arith
status_condition-chart_status (some code) wait as_error = ground arith
status_condition-chart_status (some code) wait as_throttled = ground arith
status_condition-chart_status (some code) wait as_success = ground arith
