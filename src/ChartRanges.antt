-- ===== src/ChartRanges.antt =====
-- app/chart_ranges.py: the window and the buckets of the dashboard's charts.
-- The age of the oldest request is in microseconds. `round` is Python's, to the even neighbour.
pub mod Bounds
pub mod Tests
use prismux.Prelude.{
  ℕ, ◌+◌, ◌-◌, ◌*◌, ◌/◌, ◌%◌, max, Bool, Option, none, some, List, [], ◌∷◌, Dict, lookup, Str, text,
  text_eq, nat_eq, ceil_div, round_div, if◌then◌else◌, ℤ, pos, negsuc,
}

abbrev pub range_presets : Dict Str (ℕ × ℕ)
range_presets =
    (text "5m", (300, 10))
    ∷ (text "30m", (1800, 60))
    ∷ (text "1h", (3600, 120))
    ∷ (text "6h", (21600, 600))
    ∷ (text "24h", (86400, 1800))
    ∷ []

pub record Range : Type 0 where
  pub window_seconds : ℕ
  pub bucket_seconds : ℕ
  pub bucket_count : ℕ

-- The window of "all": what the oldest request needs, or the fallback.
abbrev pub all_window : Option ℤ → ℕ
all_window none = 300
all_window (some (negsuc n)) = 300
all_window (some (pos age)) = if nat_eq age 0 then 300 else max 60 (ceil_div age 1000000)

unfoldable pub resolve_all : ℕ → Range
resolve_all window =
    let bucket = max 10 (round_div window 40) in
    record {
      window_seconds = window;
      bucket_seconds = bucket;
      bucket_count = ceil_div window bucket;
    }

unfoldable pub resolve_range : Str → Option ℤ → Range
resolve_range range_key oldest_age = elim (lookup range_key range_presets) [
  | some (window, bucket) ↦ record {
    window_seconds = window;
    bucket_seconds = bucket;
    bucket_count = window / bucket;
  }
  | none ↦ resolve_all (all_window oldest_age)
]
