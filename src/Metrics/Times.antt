-- ===== src/Metrics/Times.antt =====
-- calculate_lead_time and calculate_cycle_time of pipelines/utils/metrics.py.
use process_metrics_platform.Common.{ℕ, ◌+◌, ◌-◌, Option, none, some, leb, if◌then◌else◌}
use process_metrics_platform.Documents.{ℤ, pos, negsuc}

-- How far a zone is from UTC, in microseconds. A zone is taken to be a fixed offset.
pub data Offset : Type 0 where
  ahead : ℕ → Offset
  behind : ℕ → Offset

-- The clock time in microseconds, and its zone where it has one.
pub record Moment : Type 0 where
  pub local : ℕ
  pub tzinfo : Option Offset

abbrev pub east : Option Offset → ℕ
east (some (ahead n)) = n
east _ = 0

abbrev pub west : Option Offset → ℕ
west (some (behind n)) = n
west _ = 0

abbrev minus : ℕ → ℕ → ℤ
minus a b = if leb b a then pos (a - b) else negsuc (b - a - 1)

-- resolved - created, for two moments with a zone each, or for two without
unfoldable pub delta : Moment → Moment → ℤ
delta resolved created =
    minus (resolved.local + west resolved.tzinfo + east created.tzinfo)
      (created.local + west created.tzinfo + east resolved.tzinfo)

-- A moment without a zone gets that of the other one.
abbrev pub zone_or : Option Offset → Option Offset → Option Offset
zone_or none other = other
zone_or (some zone) other = some zone

unfoldable pub with_zone_of : Moment → Moment → Moment
with_zone_of m other = record m { tzinfo = zone_or m.tzinfo other.tzinfo }

-- A number of microseconds over the microseconds of a day and of an hour
pub record Duration : Type 0 where
  pub days : ℤ × ℕ
  pub hours : ℤ × ℕ

abbrev pub duration : ℤ → Duration
duration micros = record { days = (micros, 86400000000); hours = (micros, 3600000000) }

unfoldable pub calculate_lead_time : Option Moment → Option Moment → Option Duration
unfolding delta with_zone_of
calculate_lead_time (some created) (some resolved) =
    some (duration (delta (with_zone_of resolved created) (with_zone_of created resolved)))
calculate_lead_time _ _ = none

unfoldable pub calculate_cycle_time : Option Moment → Option Moment → Option Duration
unfolding delta with_zone_of
calculate_cycle_time (some started) (some resolved) =
    some (duration (delta (with_zone_of resolved started) (with_zone_of started resolved)))
calculate_cycle_time _ _ = none
