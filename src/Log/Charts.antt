-- ===== src/Log/Charts.antt =====
-- The dashboard's charts in app/db.py: rows of the request log and queue samples sorted into time
-- buckets by Python code. Times are milliseconds since the epoch, the precision of `parse_str`.
pub mod Totals
pub mod Tests
use prismux.Prelude.{
  ℕ, zero, suc, ◌+◌, ◌-◌, ◌*◌, ◌/◌, max, Option, none, some, List, [], ◌∷◌, replicate, ltb, leb,
  nat_eq, if◌then◌else◌, get_elem?, length,
}
use prismux.Log.Status.{
  Stat, Status, as_error, as_throttled, as_success, chart_status, wait_or_zero,
}

pub record Row : Type 0 where
  pub timestamp : ℕ
  pub stat : Stat
  pub open stat use *
  pub model_response_ms : Option ℕ

-- `bucket_count - 1 - int(age // bucket_seconds)`, or the `continue` of a row outside the chart.
unfoldable pub bucket_index : ℕ → ℕ → ℕ → ℕ → Option ℕ
bucket_index now bucket_ms bucket_count timestamp =
    if ltb now timestamp
    then none
    else if ltb ((now - timestamp) / bucket_ms) bucket_count
    then some (bucket_count - 1 - (now - timestamp) / bucket_ms)
    else none

-- `buckets[i] += n` and `buckets[i] = max(buckets[i], n)`
unfoldable pub add_at : ℕ → ℕ → List ℕ → List ℕ
add_at i n [] = []
add_at zero n (x ∷ xs) = (x + n) ∷ xs
add_at (suc i) n (x ∷ xs) = x ∷ add_at i n xs

unfoldable pub max_at : ℕ → ℕ → List ℕ → List ℕ
max_at i n [] = []
max_at zero n (x ∷ xs) = max x n ∷ xs
max_at (suc i) n (x ∷ xs) = x ∷ max_at i n xs

pub record StatusChart : Type 0 where
  pub success : List ℕ
  pub throttled : List ℕ
  pub error : List ℕ

abbrev pub count_status : Status → ℕ → StatusChart → StatusChart
count_status as_error i c = record c { error = add_at i 1 c.error }
count_status as_throttled i c = record c { throttled = add_at i 1 c.throttled }
count_status as_success i c = record c { success = add_at i 1 c.success }

abbrev pub count_row : Option ℕ → Row → StatusChart → StatusChart
count_row none r c = c
count_row (some i) r c = count_status (chart_status r.stat) i c

unfoldable pub count_rows : ℕ → ℕ → ℕ → List Row → StatusChart → StatusChart
count_rows now bucket_ms bucket_count [] c = c
count_rows now bucket_ms bucket_count (r ∷ rows) c =
    count_rows now bucket_ms bucket_count rows
      (count_row (bucket_index now bucket_ms bucket_count r.timestamp) r c)

unfoldable pub chart_status_breakdown : ℕ → ℕ → ℕ → List Row → StatusChart
chart_status_breakdown now bucket_ms bucket_count rows =
    let empty = replicate bucket_count 0 in
    count_rows now bucket_ms bucket_count rows
      (record { success = empty; throttled = empty; error = empty })

-- `latency_buckets`: the sums and the counts of which it returns the rounded quotients.
pub record Latency : Type 0 where
  pub wait_sum : List ℕ
  pub wait_count : List ℕ
  pub response_sum : List ℕ
  pub response_count : List ℕ

abbrev pub add_response : Option ℕ → ℕ → Latency → Latency
add_response none i l = l
add_response (some ms) i l = record l {
  response_sum = add_at i ms l.response_sum;
  response_count = add_at i 1 l.response_count;
}

abbrev pub add_latency : Option ℕ → Row → Latency → Latency
add_latency none r l = l
add_latency (some i) r l = add_response r.model_response_ms i (record l {
  wait_sum = add_at i (wait_or_zero r.wait_ms) l.wait_sum;
  wait_count = add_at i 1 l.wait_count;
})

unfoldable pub add_latencies : ℕ → ℕ → ℕ → List Row → Latency → Latency
add_latencies now bucket_ms bucket_count [] l = l
add_latencies now bucket_ms bucket_count (r ∷ rows) l =
    add_latencies now bucket_ms bucket_count rows
      (add_latency (bucket_index now bucket_ms bucket_count r.timestamp) r l)

-- `queue_sample_buckets`: the depth of a bucket is its deepest sample.
pub record Sample : Type 0 where
  pub timestamp : ℕ
  pub queue_depth : ℕ

abbrev pub add_depth : Option ℕ → ℕ → List ℕ → List ℕ
add_depth none depth xs = xs
add_depth (some i) depth xs = max_at i depth xs

unfoldable pub depth_max : ℕ → ℕ → ℕ → List Sample → List ℕ → List ℕ
depth_max now bucket_ms bucket_count [] xs = xs
depth_max now bucket_ms bucket_count (s ∷ samples) xs =
    depth_max now bucket_ms bucket_count samples
      (add_depth (bucket_index now bucket_ms bucket_count s.timestamp) s.queue_depth xs)
