-- ===== src/Log/Status/Tests.antt =====
-- The classification of app/db.py at concrete rows.
use prismux.Prelude.{◌≡◌, ◌↔◌, refl, true, none, some}
use prismux.Log.Status.{as_throttled, as_error, status_condition, holds, chart_status, status_label}
use prismux.Log.Status.Partition.{status_condition-chart_status}

slow_success : chart_status (record { status_code = some 200; wait_ms = some 2001 }) ≡ as_throttled
unfolding chart_status status_label
slow_success = refl

status_condition-chart_status_example :
    (holds (status_condition as_error (record { status_code = none; wait_ms = some 5 })) ≡ true)
    ↔ (as_error ≡ chart_status (record { status_code = none; wait_ms = some 5 }))
status_condition-chart_status_example = status_condition-chart_status none 5 as_error
