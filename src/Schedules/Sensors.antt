-- ===== src/Schedules/Sensors.antt =====
-- The four guarded sensors of pipelines/jobs/schedules.py. The cursor is the state that Dagster
-- keeps for a sensor between two evaluations.
use process_metrics_platform.Common.{
  ℕ, String, Bool, true, false, ◌&&◌, Option, none, some, List, [], ◌∷◌, ◌++◌, ◌==◌, Dict, codes,
  same_text,
}
use process_metrics_platform.Schedules.Clock.{Utc, day_bucket, hour_bucket}
use process_metrics_platform.Schedules.Runs.{RunRecord, GetRunRecords, active_run_ids_by_job}

-- The SkipReason that a sensor returns, by what its message names, or its RunRequest by the key.
pub data Answer : Type 0 where
  waiting : Answer
  already_requested : List ℕ → Answer
  blocked : Dict (List String) → Answer
  run_request : List ℕ → Answer

abbrev pub Cursor : Type 0
Cursor = Option (List ℕ)

-- context.cursor == bucket
unfoldable pub cursor_is : Cursor → List ℕ → Bool
unfolding same_text
cursor_is none bucket = false
cursor_is (some text) bucket = same_text text bucket

-- The body that the sensors share: the window, the cursor, the blocking runs, and at last the
-- request and the update of the cursor.
unfoldable pub guarded :
    Bool → Bool → Dict (List String) → List ℕ → List ℕ → Cursor → Answer × Cursor
guarded false same runs key bucket cursor = (waiting, cursor)
guarded true true runs key bucket cursor = (already_requested bucket, cursor)
guarded true false [] key bucket cursor = (run_request key, some bucket)
guarded true false (run ∷ runs) key bucket cursor = (blocked (run ∷ runs), cursor)

pub data Sensor : Type 0 where
  light_refresh heavy_refresh heavy_cfd heavy_backlog_aging : Sensor

unfoldable pub refresh_jobs : List String
refresh_jobs =
    "jira_sync_job" ∷ "jira_clean_job" ∷ "metrics_light_refresh_job" ∷ "metrics_heavy_refresh_job"
    ∷ []

unfoldable pub blocking_jobs : Sensor → List String
unfolding refresh_jobs
blocking_jobs light_refresh = refresh_jobs
blocking_jobs heavy_refresh = refresh_jobs
blocking_jobs heavy_cfd =
    refresh_jobs ++ "metrics_heavy_backlog_aging_job" ∷ "metrics_heavy_cfd_job" ∷ []
blocking_jobs heavy_backlog_aging =
    refresh_jobs ++ "metrics_heavy_backlog_aging_job" ∷ "metrics_heavy_cfd_job" ∷ []

unfoldable pub in_window : Sensor → Utc → Bool
in_window light_refresh t = t.minute == 5
in_window heavy_refresh t = (t.hour == 2) && (t.minute == 35)
in_window heavy_cfd t = (t.hour == 2) && (t.minute == 35)
in_window heavy_backlog_aging t = (t.hour == 3) && (t.minute == 20)

unfoldable pub bucket_of : Sensor → Utc → List ℕ
bucket_of light_refresh t = hour_bucket t
bucket_of heavy_refresh t = day_bucket t
bucket_of heavy_cfd t = day_bucket t
bucket_of heavy_backlog_aging t = day_bucket t

unfoldable pub key_prefix : Sensor → List ℕ
key_prefix light_refresh = codes "metrics-light-refresh-"
key_prefix heavy_refresh = codes "metrics-heavy-refresh-"
key_prefix heavy_cfd = codes "metrics-heavy-cfd-"
key_prefix heavy_backlog_aging = codes "metrics-heavy-backlog-aging-"

module _ (get_run_records : GetRunRecords) where
  -- One evaluation of a sensor at a time, with the runs that the instance has and the cursor.
  unfoldable pub evaluate : Sensor → Utc → List RunRecord → Cursor → Answer × Cursor
  unfolding guarded cursor_is blocking_jobs in_window bucket_of key_prefix active_run_ids_by_job
  evaluate sensor now runs cursor =
      let bucket = bucket_of sensor now in
      guarded (in_window sensor now) (cursor_is cursor bucket)
        (active_run_ids_by_job get_run_records runs (blocking_jobs sensor))
        (key_prefix sensor ++ bucket) bucket cursor
