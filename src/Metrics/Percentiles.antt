-- ===== src/Metrics/Percentiles.antt =====
-- calculate_lead_time_percentiles of pipelines/utils/metrics.py. The lead times are natural numbers of
-- a unit as small as is needed, and the percentiles are given in hundredths of it, exactly, before they are
-- rounded.
use process_metrics_platform.Common.{
  ℕ, zero, suc, ◌+◌, ◌-◌, ◌*◌, ◌/◌, ◌%◌, Option, none, some, List, [], ◌∷◌, leb, length,
  if◌then◌else◌,
}

unfoldable pub place_time : ℕ → List ℕ → List ℕ
place_time t [] = t ∷ []
place_time t (u ∷ us) = let rest = place_time t us in if leb t u then t ∷ u ∷ us else u ∷ rest

-- sorted(lead_times)
unfoldable pub sort_times : List ℕ → List ℕ
unfolding place_time
sort_times [] = []
sort_times (t ∷ ts) = place_time t (sort_times ts)

-- times[i], or 0 out of range
unfoldable pub time_at : List ℕ → ℕ → ℕ
time_at [] i = 0
time_at (t ∷ ts) zero = t
time_at (t ∷ ts) (suc i) = time_at ts i

-- The value between the times at f and f + 1, where 100 * k is `x` and f is the whole part of k; times[-1] is the last one.
unfoldable pub between : List ℕ → ℕ → ℕ
unfolding time_at
between times x =
    let f = x / 100 in
    if leb (length times) (f + 1)
    then time_at times (length times - 1) * 100
    else time_at times f * 100 + (x % 100) * (time_at times (f + 1) - time_at times f)

-- k = (n - 1) * p / 100
unfoldable pub percentile : List ℕ → ℕ → ℕ
unfolding between
percentile times p = between times ((length times - 1) * p)

unfoldable pub total : List ℕ → ℕ
total [] = 0
total (t ∷ ts) = t + total ts

pub record Percentiles : Type 0 where
  pub p50 : ℕ
  pub p75 : ℕ
  pub p85 : ℕ
  pub p95 : ℕ
  pub avg : ℕ × ℕ

unfoldable pub of_sorted : List ℕ → Percentiles
unfolding percentile total
of_sorted times = record {
  p50 = percentile times 50;
  p75 = percentile times 75;
  p85 = percentile times 85;
  p95 = percentile times 95;
  avg = (total times, length times);
}

unfoldable pub calculate_lead_time_percentiles : List ℕ → Option Percentiles
unfolding of_sorted sort_times
calculate_lead_time_percentiles [] = none
calculate_lead_time_percentiles (t ∷ ts) = some (of_sorted (sort_times (t ∷ ts)))
