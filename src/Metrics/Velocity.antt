-- ===== src/Metrics/Velocity.antt =====
-- calculate_sprint_velocity of pipelines/utils/metrics.py.
use process_metrics_platform.Common.{
  ℕ, ◌+◌, String, Bool, false, ◌||◌, Option, none, some, List, [], ◌∷◌, ltb, str_eq, length,
  if◌then◌else◌,
}

-- The status of an issue, and its story points where these are a number that is not negative; a value
-- that is no number counts for nothing.
pub record SprintIssue : Type 0 where
  pub status_name : String
  pub story_points : Option ℕ

abbrev pub points_of : SprintIssue → ℕ
points_of issue = elim issue.story_points [ none ↦ 0 | some n ↦ n ]

unfoldable pub is_in : String → List String → Bool
is_in s [] = false
is_in s (t ∷ ts) = str_eq t s || is_in s ts

abbrev pub default_done : List String
default_done = "Done" ∷ "Closed" ∷ "Resolved" ∷ []

-- A percentage, before it is rounded: a part of a whole that is not 0, or 0.0
pub data Rate : Type 0 where
  zero_rate : Rate
  part_of : ℕ → ℕ → Rate

pub record Velocity : Type 0 where
  pub total_issues : ℕ
  pub completed_issues : ℕ
  pub completion_rate : Rate
  pub total_story_points : ℕ
  pub completed_story_points : ℕ
  pub story_points_completion_rate : Rate

abbrev pub rate : ℕ → ℕ → Rate
rate part whole = if ltb 0 whole then part_of part whole else zero_rate

-- What the loop counts: the completed issues, all points, and the points of the completed issues.
unfoldable pub count_issues : List String → List SprintIssue → ℕ × ℕ × ℕ
unfolding is_in
count_issues done [] = (0, 0, 0)
count_issues done (issue ∷ issues) =
    let (completed, points, completed_points) = count_issues done issues in
    if is_in issue.status_name done
    then (completed + 1, points + points_of issue, completed_points + points_of issue)
    else (completed, points + points_of issue, completed_points)

abbrev or_default : Option (List String) → List String
or_default none = default_done
or_default (some done) = done

unfoldable pub calculate_sprint_velocity : List SprintIssue → Option (List String) → Velocity
unfolding count_issues
calculate_sprint_velocity issues done_statuses =
    let (completed, points, completed_points) = count_issues (or_default done_statuses) issues in
    record {
      total_issues = length issues;
      completed_issues = completed;
      completion_rate = rate completed (length issues);
      total_story_points = points;
      completed_story_points = completed_points;
      story_points_completion_rate = rate completed_points points;
    }
