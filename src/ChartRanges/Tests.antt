-- ===== src/ChartRanges/Tests.antt =====
-- Runs of app/chart_ranges.py, and the theorem about it at a concrete input.
use prismux.Prelude.{◌≡◌, refl, some, text, list_beq, lookup, pos, ceil_div, round_div}
use prismux.ChartRanges.{resolve_all, resolve_range}
use prismux.ChartRanges.Bounds.{IsCover, resolve_range-IsCover}

-- Ten and a half seconds to the bucket are rounded to ten.
seven_minutes :
    resolve_range (text "all") (some (pos 419500000))
    ≡ record { window_seconds = 420; bucket_seconds = 10; bucket_count = 42 }
unfolding resolve_range lookup list_beq text resolve_all round_div ceil_div
seven_minutes = refl

resolve_range-IsCover_example : IsCover (resolve_range (text "all") (some (pos 419500000)))
resolve_range-IsCover_example = resolve_range-IsCover (text "all") (some (pos 419500000))
