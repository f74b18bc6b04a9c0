-- ===== src/Metrics/Throughput.antt =====
-- calculate_throughput of pipelines/utils/metrics.py. A date is given by the number of its day.
use process_metrics_platform.Common.{
  ℕ, suc, ◌+◌, ◌-◌, ◌/◌, ◌≡◌, refl, arith, Bool, true, false, Option, none, some, List, [], ◌∷◌,
  ◌==◌, leb, length, if◌then◌else◌,
}
use process_metrics_platform.Documents.{ℤ, pos, negsuc, type_error, Result, ok, raised, ◌>>=◌}
use process_metrics_platform.Metrics.Times.{Moment, delta}
use process_metrics_platform.Metrics.Velocity.{Rate, rate, zero_rate}

-- later - earlier: a moment with a zone and one without have no difference, and no order.
unfoldable pub difference : Moment → Moment → Result ℤ
unfolding delta
difference later earlier = elim later.tzinfo [
  | none ↦ elim earlier.tzinfo [ none ↦ ok (delta later earlier) | some e ↦ raised type_error ]
  | some l ↦ elim earlier.tzinfo [ none ↦ raised type_error | some e ↦ ok (delta later earlier) ]
]

abbrev is_natural : ℤ → Bool
is_natural (pos n) = true
is_natural (negsuc n) = false

unfoldable pub is_within : Moment → Moment → Moment → Result Bool
unfolding difference
is_within start end resolved = difference resolved start >>= λ gone. elim (is_natural gone) [
  | true ↦ difference end resolved >>= λ left. ok (is_natural left)
  | false ↦ ok false
]

-- start_date and end_date, which the loop changes
pub record Period : Type 0 where
  pub start : Moment
  pub end : Moment

-- The zones of a round: those of the period after it, and that of the moment
unfoldable pub align : Period → Moment → Period × Moment
align period resolved = elim period.start.tzinfo [
  | none ↦ elim resolved.tzinfo [
    | none ↦ (period, resolved)
    | some zone ↦ (
      record {
        start = record period.start { tzinfo = some zone };
        end = record period.end { tzinfo = some zone };
      },
      resolved,
    )
  ]
  | some zone ↦ elim resolved.tzinfo [
    | none ↦ (period, record resolved { tzinfo = some zone })
    | some other ↦ (period, resolved)
  ]
]

-- The resolutions of the issues that the loop keeps, and the period after the loop
unfoldable pub resolved_in_range : Period → List (Option Moment) → Result (List Moment × Period)
unfolding align is_within
resolved_in_range period [] = ok ([], period)
resolved_in_range period (none ∷ issues) = resolved_in_range period issues
resolved_in_range period (some resolved ∷ issues) =
    let (aligned, moment) = align period resolved in
    let rest = resolved_in_range aligned issues in
    is_within aligned.start aligned.end moment >>= λ within.
    rest >>= λ (later, last). ok ((if within then resolved ∷ later else later), last)

-- The days of a difference, rounded down, and one more
unfoldable pub days_of : ℤ → ℤ
days_of (pos n) = pos (n / 86400000000 + 1)
days_of (negsuc n) = let d = n / 86400000000 in if d == 0 then pos 0 else negsuc (d - 1)

unfoldable pub day_of : Moment → ℕ
day_of moment = moment.local / 86400000000

-- by_date[date_str] = by_date.get(date_str, 0) + 1
unfoldable pub count_day : ℕ → List (ℕ × ℕ) → List (ℕ × ℕ)
count_day day [] = (day, 1) ∷ []
count_day day ((d, n) ∷ counts) =
    if d == day then (d, n + 1) ∷ counts else (d, n) ∷ count_day day counts

unfoldable pub count_days : List (ℕ × ℕ) → List Moment → List (ℕ × ℕ)
unfolding count_day day_of
count_days counts [] = counts
count_days counts (m ∷ ms) = count_days (count_day (day_of m) counts) ms

unfoldable pub most : List (ℕ × ℕ) → ℕ
most [] = 0
most ((d, n) ∷ counts) = let m = most counts in if leb m n then n else m

unfoldable pub least : List (ℕ × ℕ) → ℕ
least [] = 0
least ((d, n) ∷ []) = n
least ((d, n) ∷ (e, k) ∷ counts) = let m = least ((e, k) ∷ counts) in if leb n m then n else m

pub record Throughput : Type 0 where
  pub total_issues_completed : ℕ
  pub days_in_range : ℤ
  pub avg_daily_throughput : Rate
  pub by_date : List (ℕ × ℕ)
  pub max_daily : ℕ
  pub min_daily : ℕ

abbrev average : ℕ → ℤ → Rate
average n (pos days) = rate n days
average n (negsuc days) = zero_rate

unfoldable pub throughput_of : List Moment → ℤ → Throughput
unfolding count_days most least
throughput_of resolved days =
    let by_date = count_days [] resolved in
    record {
      total_issues_completed = length resolved;
      days_in_range = days;
      avg_daily_throughput = average (length resolved) days;
      by_date = by_date;
      max_daily = most by_date;
      min_daily = least by_date;
    }

unfoldable pub calculate_throughput : List (Option Moment) → Moment → Moment → Result Throughput
unfolding resolved_in_range difference days_of throughput_of
calculate_throughput issues start_date end_date =
    resolved_in_range (record { start = start_date; end = end_date }) issues
    >>= λ (resolved, period).
        difference period.end period.start >>= λ span. ok (throughput_of resolved (days_of span))

unfoldable counted : List (ℕ × ℕ) → ℕ
counted [] = 0
counted ((d, n) ∷ counts) = n + counted counts

count_day-counted :
    (day : ℕ) (counts : List (ℕ × ℕ)) → counted (count_day day counts) ≡ suc (counted counts)
unfolding counted count_day
count_day-counted day [] = refl
count_day-counted day ((d, n) ∷ counts) = ground (arith, count_day-counted day counts)

count_days-counted :
    (counts : List (ℕ × ℕ)) (ms : List Moment)
    → counted (count_days counts ms) ≡ counted counts + length ms
unfolding count_days
count_days-counted counts [] = omega arith
count_days-counted counts (m ∷ ms) = omega (
  arith,
  count_days-counted (count_day (day_of m) counts) ms,
  count_day-counted (day_of m) counts,
)

-- Every completed issue is counted on one day.
throughput_of-counted :
    (ms : List Moment) (days : ℤ)
    → counted (throughput_of ms days).by_date ≡ (throughput_of ms days).total_issues_completed
unfolding counted throughput_of
throughput_of-counted ms days = omega (arith, count_days-counted [] ms)
