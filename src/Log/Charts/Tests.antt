-- ===== src/Log/Charts/Tests.antt =====
-- The status chart of app/db.py at concrete rows.
use prismux.Prelude.{ℕ, ◌≡◌, refl, none, some, List, [], ◌∷◌, sum}
use prismux.Log.Status.{as_error, chart_status, status_label}
use prismux.Log.Charts.{
  Row, bucket_index, add_at, max_at, count_rows, chart_status_breakdown, depth_max,
}
use prismux.Log.Charts.Totals.{series, rows_with, chart_status_breakdown-total}

abbrev row_at : ℕ → ℕ → Row
row_at time code = record {
  timestamp = time;
  stat = record { status_code = some code; wait_ms = some 0 };
  model_response_ms = none;
}

-- One answer in the last bucket, one error in the first, one row too old and one in the future.
abbrev rows : List Row
rows = row_at 99_000 200 ∷ row_at 71_000 503 ∷ row_at 10_000 200 ∷ row_at 120_000 200 ∷ []

three_buckets :
    chart_status_breakdown 100_000 10_000 3 rows
    ≡ record { success = 0 ∷ 0 ∷ 1 ∷ []; throttled = 0 ∷ 0 ∷ 0 ∷ []; error = 1 ∷ 0 ∷ 0 ∷ [] }
unfolding chart_status_breakdown count_rows bucket_index add_at chart_status status_label
three_buckets = refl

deepest :
    depth_max 100_000 10_000 2
      (record { timestamp = 99_000; queue_depth = 2 }
        ∷ record { timestamp = 98_000; queue_depth = 5 }
        ∷ [])
      (0 ∷ 0 ∷ [])
    ≡ 0 ∷ 5 ∷ []
unfolding depth_max bucket_index max_at
deepest = refl

chart_status_breakdown-total_example :
    sum (series as_error (chart_status_breakdown 100_000 10_000 3 rows))
    ≡ rows_with as_error 100_000 10_000 3 rows
chart_status_breakdown-total_example = chart_status_breakdown-total as_error 100_000 10_000 3 rows
