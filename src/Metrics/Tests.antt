-- ===== src/Metrics/Tests.antt =====
-- The metrics of pipelines/utils/metrics.py on small inputs.
use process_metrics_platform.Common.{◌≡◌, refl, none, some, [], ◌∷◌}
use process_metrics_platform.Documents.{pos, negsuc, ok}
use process_metrics_platform.Metrics.Times.{
  Moment, ahead, duration, calculate_lead_time, calculate_cycle_time,
}
use process_metrics_platform.Metrics.Velocity.{Velocity, part_of, calculate_sprint_velocity}
use process_metrics_platform.Metrics.Percentiles.{Percentiles, calculate_lead_time_percentiles}
use process_metrics_platform.Metrics.Throughput.{calculate_throughput}
use process_metrics_platform.Metrics.WorkStart.{detect_work_start_from_changelog}

abbrev morning : Moment
morning = record { local = 100; tzinfo = none }

abbrev noon : Moment
noon = record { local = 400; tzinfo = some (ahead 50) }

-- A moment without a zone gets that of the other one.
lead_time_of_noon : calculate_lead_time (some morning) (some noon) ≡ some (duration (pos 300))
unfolding calculate_lead_time
lead_time_of_noon = refl

cycle_time_backwards :
    calculate_cycle_time (some noon) (some morning) ≡ some (duration (negsuc 299))
unfolding calculate_cycle_time
cycle_time_backwards = refl

no_lead_time : calculate_lead_time none (some noon) ≡ none
unfolding calculate_lead_time
no_lead_time = refl

abbrev half_done : Velocity
half_done = record {
  total_issues = 2;
  completed_issues = 1;
  completion_rate = part_of 1 2;
  total_story_points = 8;
  completed_story_points = 3;
  story_points_completion_rate = part_of 3 8;
}

velocity_of_two :
    calculate_sprint_velocity
      (record { status_name = "Done"; story_points = some 3 }
        ∷ record { status_name = "To Do"; story_points = some 5 }
        ∷ [])
      none
    ≡ half_done
unfolding calculate_sprint_velocity
velocity_of_two = refl

abbrev five : Percentiles
five = record { p50 = 300; p75 = 400; p85 = 440; p95 = 480; avg = (15, 5) }

percentiles_of_five : calculate_lead_time_percentiles (5 ∷ 3 ∷ 1 ∷ 2 ∷ 4 ∷ []) ≡ some five
unfolding calculate_lead_time_percentiles
percentiles_of_five = refl

earliest_start :
    detect_work_start_from_changelog
      (record { changed_at = some 9; to_value = some "In Review" }
        ∷ record { changed_at = some 4; to_value = some "In Progress" }
        ∷ record { changed_at = some 2; to_value = some "To Do" }
        ∷ [])
      none
    ≡ some 4
unfolding detect_work_start_from_changelog
earliest_start = refl

-- Two issues are resolved on the first day, one on the third; one lies after the period.
three_completed :
    calculate_throughput
      (some (record { local = 100; tzinfo = none })
        ∷ none
        ∷ some (record { local = 172800000001; tzinfo = none })
        ∷ some (record { local = 200; tzinfo = none })
        ∷ some (record { local = 259200000002; tzinfo = none })
        ∷ [])
      (record { local = 0; tzinfo = none })
      (record { local = 259200000000; tzinfo = none })
    ≡ ok (record {
      total_issues_completed = 3;
      days_in_range = pos 4;
      avg_daily_throughput = part_of 3 4;
      by_date = (0, 2) ∷ (2, 1) ∷ [];
      max_daily = 2;
      min_daily = 1;
    })
unfolding calculate_throughput
three_completed = refl
