-- ===== src/Metrics/Monotone.antt =====
-- The percentiles of pipelines/utils/metrics.py are in order and within the lead times.
use process_metrics_platform.Common.{ℕ, ◌≤◌, List, [], ◌∷◌, All}
use process_metrics_platform.Metrics.Percentiles.{Percentiles}

abbrev pub IsAscending : List ℕ → Type 0
IsAscending [] = Unit
IsAscending (t ∷ ts) = All (λ u. t ≤ u) ts × IsAscending ts
