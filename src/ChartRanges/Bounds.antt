-- ===== src/ChartRanges/Bounds.antt =====
-- The buckets of app/chart_ranges.py cover the window, and are few.
use prismux.Prelude.{
  ℕ, ◌+◌, ◌*◌, ◌≤◌, ◌<◌, max, Option, lookup, Str, text_eq, ℤ, arith, dec_lt, ceil_div, round_div,
  ceil_div_bounds,
}
use prismux.ChartRanges.{Range, all_window, resolve_all, resolve_range}

-- No bucket is empty, the buckets cover the window, the last one starts inside it, and there are
-- at most 48 of them.
pub record IsCover (r : Range) : Type 0 where
  pub wide : 0 < r.bucket_seconds
  pub covers : r.window_seconds ≤ r.bucket_count * r.bucket_seconds
  pub tight : r.bucket_count * r.bucket_seconds < r.window_seconds + r.bucket_seconds
  pub few : r.bucket_count ≤ 48

round_div_40 : (w : ℕ) → w ≤ 40 * round_div w 40 + 20
unfolding round_div
round_div_40 w = ground arith

few_of : (w c b rounded : ℕ) → w ≤ 40 * rounded + 20 → rounded ≤ b → 10 ≤ b → c * b < w + b → c ≤ 42
few_of w c b rounded h k m e = elim (dec_lt 42 c) [
  | yes many ↦ absurd (let n : 43 * b ≤ c * b = grind arith in omega arith)
  | no few ↦ omega arith
]

resolve_all-IsCover : (window : ℕ) → IsCover (resolve_all window)
unfolding resolve_all
resolve_all-IsCover w =
    let b : ℕ = max 10 (round_div w 40) in
    let bounds = ceil_div_bounds w b (omega arith) in
    record {
      wide = omega arith;
      covers = bounds.0;
      tight = bounds.1;
      few =
          let k : ceil_div w b ≤ 42 =
            few_of w (ceil_div w b) b (round_div w 40) (round_div_40 w) (omega arith) (omega arith)
              bounds.1 in
          omega arith;
    }

-- For every range key, also one that is unknown, and whatever the age of the oldest request, the
-- buckets of the range are not empty, together cover the window, and are at most 48; the last one
-- starts inside the window.
pub resolve_range-IsCover : (key : Str) (age : Option ℤ) → IsCover (resolve_range key age)
unfolding resolve_range lookup
resolve_range-IsCover key age = ground (arith, resolve_all-IsCover (all_window age))
