-- ===== src/Log/Charts/Totals.antt =====
-- What the charts of app/db.py add up to.
use prismux.Prelude.{
  ℕ, zero, suc, ◌+◌, ◌-◌, ◌/◌, ◌<◌, ◌≡◌, ap, Bool, true, false, ◌&&◌, Option, none, some, List, [],
  ◌∷◌, replicate, length, length-replicate, sum, ltb, leb, if◌then◌else◌, arith, refl, ◌⊎◌, inl,
  inr, ◌∙◌, Bool-cases,
}
use prismux.Log.Status.{Status, as_error, as_throttled, as_success, chart_status}
use prismux.Log.Charts.{
  Row, bucket_index, add_at, StatusChart, count_status, count_row, count_rows,
  chart_status_breakdown,
}

pub bucket_index-lt :
    (now bucket_ms count timestamp i : ℕ)
    → bucket_index now bucket_ms count timestamp ≡ some i
    → i < count
unfolding bucket_index
bucket_index-lt now bucket_ms count timestamp i h = ground arith

sum-add_at : (i n : ℕ) (xs : List ℕ) → i < length xs → sum (add_at i n xs) ≡ sum xs + n
unfolding add_at
sum-add_at i n [] h = elim h [ ]
sum-add_at zero n (x ∷ xs) h = omega arith
sum-add_at (suc i) n (x ∷ xs) h = omega (arith, sum-add_at i n xs (omega arith))

length-add_at : (i n : ℕ) (xs : List ℕ) → length (add_at i n xs) ≡ length xs
unfolding add_at
length-add_at i n [] = refl
length-add_at zero n (x ∷ xs) = refl
length-add_at (suc i) n (x ∷ xs) = ap suc (length-add_at i n xs)

sum-replicate : (n : ℕ) → sum (replicate n 0) ≡ 0
sum-replicate zero = refl
sum-replicate (suc n) = omega (arith, sum-replicate n)

-- A row that is not in the future, and not older than the chart.
abbrev pub in_chart : ℕ → ℕ → ℕ → Row → Bool
in_chart now bucket_ms count r = leb r.timestamp now && ltb ((now - r.timestamp) / bucket_ms) count

abbrev pub same_status : Status → Status → Bool
same_status as_error as_error = true
same_status as_throttled as_throttled = true
same_status as_success as_success = true
same_status _ _ = false

-- How many rows of the chart have a status.
unfoldable pub rows_with : Status → ℕ → ℕ → ℕ → List Row → ℕ
rows_with s now bucket_ms count [] = 0
rows_with s now bucket_ms count (r ∷ rows) =
    (if in_chart now bucket_ms count r && same_status (chart_status r.stat) s then 1 else 0)
    + rows_with s now bucket_ms count rows

abbrev pub series : Status → StatusChart → List ℕ
series as_error c = c.error
series as_throttled c = c.throttled
series as_success c = c.success

-- All three series have the chart's length.
abbrev HasLength : ℕ → StatusChart → Type 0
HasLength n c = (length c.success ≡ n) × (length c.throttled ≡ n) × (length c.error ≡ n)

count_row-HasLength :
    (n : ℕ) (i : Option ℕ) (r : Row) (c : StatusChart)
    → HasLength n c
    → HasLength n (count_row i r c)
count_row-HasLength n none r c h = h
count_row-HasLength n (some i) r c h =
    ground
      (arith, length-add_at i 1 c.success, length-add_at i 1 c.throttled, length-add_at i 1 c.error)

count_status-series :
    (t s : Status) (i n : ℕ) (c : StatusChart)
    → HasLength n c
    → i < n
    → sum (series s (count_status t i c)) ≡ sum (series s c) + (if same_status t s then 1 else 0)
count_status-series t s i n c h k =
    ground (arith, sum-add_at i 1 c.success, sum-add_at i 1 c.throttled, sum-add_at i 1 c.error)

-- A row has a bucket of the chart exactly when it is in the chart.
bucket_index-cases :
    (now bucket_ms n : ℕ) (r : Row)
    → ((bucket_index now bucket_ms n r.timestamp ≡ none) × (in_chart now bucket_ms n r ≡ false))
      ⊎ ((i : ℕ) × (bucket_index now bucket_ms n r.timestamp ≡ some i)
          × (i < n)
          × (in_chart now bucket_ms n r ≡ true))
unfolding bucket_index
bucket_index-cases now bucket_ms n r = elim (Bool-cases (in_chart now bucket_ms n r)) [
  | inl e ↦ inr (n - 1 - (now - r.timestamp) / bucket_ms, ground arith, ground arith, e)
  | inr e ↦ inl (ground arith, e)
]

count_row-series :
    (s : Status) (now bucket_ms n : ℕ) (r : Row) (c : StatusChart)
    → HasLength n c
    → sum (series s (count_row (bucket_index now bucket_ms n r.timestamp) r c))
      ≡ sum (series s c)
        + (if in_chart now bucket_ms n r && same_status (chart_status r.stat) s then 1 else 0)
count_row-series s now bucket_ms n r c h = elim (bucket_index-cases now bucket_ms n r) [
  | inl (e, out) ↦ rw (e, out) (omega arith)
  | inr (i, e, k, here) ↦ rw (e, here) (count_status-series (chart_status r.stat) s i n c h k)
]

module _ (s : Status) (now bucket_ms n : ℕ) where
  count_rows-series :
      (rows : List Row) (c : StatusChart)
      → HasLength n c
      → sum (series s (count_rows now bucket_ms n rows c))
        ≡ sum (series s c) + rows_with s now bucket_ms n rows
  unfolding count_rows rows_with
  count_rows-series [] c h = omega arith
  count_rows-series (r ∷ rows) c h =
      let i : Option ℕ = bucket_index now bucket_ms n r.timestamp in
      omega (
        arith,
        count_row-series s now bucket_ms n r c h,
        count_rows-series rows (count_row i r c) (count_row-HasLength n i r c h),
      )

-- Each series of the status chart sums to the number of the rows with that status that are not in
-- the future and fall into the chart's buckets: none of these is lost or counted twice.
pub chart_status_breakdown-total :
    (s : Status) (now bucket_ms count : ℕ) (rows : List Row)
    → sum (series s (chart_status_breakdown now bucket_ms count rows))
      ≡ rows_with s now bucket_ms count rows
unfolding chart_status_breakdown
chart_status_breakdown-total s now bucket_ms count rows =
    let empty = replicate count 0 in
    let start : StatusChart = record { success = empty; throttled = empty; error = empty } in
    let len = length-replicate count 0 in
    count_rows-series s now bucket_ms count rows start (len, len, len) ∙ zero_series s
  where
    zero_series :
        (s : Status)
        → sum (
              series s (record {
                success = replicate count 0;
                throttled = replicate count 0;
                error = replicate count 0;
              }))
            + rows_with s now bucket_ms count rows
          ≡ rows_with s now bucket_ms count rows
    zero_series as_error = omega (arith, sum-replicate count)
    zero_series as_throttled = omega (arith, sum-replicate count)
    zero_series as_success = omega (arith, sum-replicate count)
