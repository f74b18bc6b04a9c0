-- ===== src/Metrics/WorkStart.antt =====
-- detect_work_start_from_changelog of pipelines/utils/metrics.py.
use process_metrics_platform.Common.{
  ℕ, String, Bool, false, Option, none, some, List, [], ◌∷◌, leb, if◌then◌else◌,
}
use process_metrics_platform.Metrics.Velocity.{is_in}

-- An item of a changelog; the datetimes of one changelog can be compared, as numbers.
pub record StatusItem : Type 0 where
  pub changed_at : Option ℕ
  pub to_value : Option String

abbrev pub default_in_progress : List String
default_in_progress = "In Progress" ∷ "In Development" ∷ "In Review" ∷ []

abbrev with_time : Option ℕ → Option String → List (ℕ × Option String) → List (ℕ × Option String)
with_time none value rest = rest
with_time (some t) value rest = (t, value) ∷ rest

-- [i for i in changelog_items if i.get("changed_at")]
unfoldable pub dated : List StatusItem → List (ℕ × Option String)
dated [] = []
dated (i ∷ items) = with_time i.changed_at i.to_value (dated items)

unfoldable pub place_item : ℕ × Option String → List (ℕ × Option String) → List (ℕ × Option String)
place_item i [] = i ∷ []
place_item i (j ∷ js) =
    let rest = place_item i js in if leb (i.0) (j.0) then i ∷ j ∷ js else j ∷ rest

-- sorted(items, key=changed_at)
unfoldable pub sort_items : List (ℕ × Option String) → List (ℕ × Option String)
unfolding place_item
sort_items [] = []
sort_items (i ∷ items) = place_item i (sort_items items)

abbrev pub starts : List String → Option String → Bool
unfolding is_in
starts statuses none = false
starts statuses (some value) = is_in value statuses

unfoldable pub first_start : List String → List (ℕ × Option String) → Option ℕ
unfolding starts
first_start statuses [] = none
first_start statuses ((t, value) ∷ items) =
    let rest = first_start statuses items in if starts statuses value then some t else rest

abbrev or_default : Option (List String) → List String
or_default none = default_in_progress
or_default (some statuses) = statuses

unfoldable pub detect_work_start_from_changelog : List StatusItem → Option (List String) → Option ℕ
unfolding first_start sort_items dated
detect_work_start_from_changelog items statuses =
    first_start (or_default statuses) (sort_items (dated items))
