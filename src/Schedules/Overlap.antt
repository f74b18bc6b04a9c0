-- ===== src/Schedules/Overlap.antt =====
-- What the refresh sensors of pipelines/jobs/schedules.py do not wait for.
use process_metrics_platform.Common.{
  refl, ◌≤◌, String, ◌≡◌, ◌≢◌, ◌⊎◌, inl, inr, false, some, List, arith, length,
}
use process_metrics_platform.Schedules.Clock.{Utc}
use process_metrics_platform.Schedules.Runs.{
  RunRecord, GetRunRecords, active_statuses, with_status, contains,
}
use process_metrics_platform.Schedules.Sensors.{
  run_request, Cursor, heavy_refresh, blocking_jobs, refresh_jobs, in_window, bucket_of, evaluate,
}
use process_metrics_platform.Schedules.Active.{IsRunStorage}
use process_metrics_platform.Schedules.Requests.{run_key, evaluate_lem}
use process_metrics_platform.Common.{In}

-- Every active run is of one of the two staged jobs, which refresh heavy metrics too.
abbrev pub IsStaged : List RunRecord → Type 0
IsStaged runs =
    (r : RunRecord)
    → In r (with_status active_statuses runs)
    → (r.job_name ≡ "metrics_heavy_cfd_job") ⊎ (r.job_name ≡ "metrics_heavy_backlog_aging_job")

refresh_jobs-cfd : contains refresh_jobs "metrics_heavy_cfd_job" ≡ false
unfolding contains refresh_jobs
refresh_jobs-cfd = refl

refresh_jobs-aging : contains refresh_jobs "metrics_heavy_backlog_aging_job" ≡ false
unfolding contains refresh_jobs
refresh_jobs-aging = refl

not_blocking :
    (name : String)
    → (name ≡ "metrics_heavy_cfd_job") ⊎ (name ≡ "metrics_heavy_backlog_aging_job")
    → contains (blocking_jobs heavy_refresh) name ≡ false
unfolding blocking_jobs
not_blocking name (inl e) = rw e refresh_jobs-cfd
not_blocking name (inr e) = rw e refresh_jobs-aging

-- At 02:35, with the cursor on an earlier day, the heavy refresh is requested although any number
-- of runs of the staged heavy jobs (at most 200, and no other run) are active.
pub heavy_refresh_overlaps :
    (get : GetRunRecords) (now : Utc) (runs : List RunRecord) (c : Cursor)
    → IsRunStorage get
    → length (with_status active_statuses runs) ≤ 200
    → now.hour ≡ 2
    → now.minute ≡ 35
    → c ≢ some (bucket_of heavy_refresh now)
    → IsStaged runs
    → evaluate get heavy_refresh now runs c
      ≡ (run_request (run_key heavy_refresh now), some (bucket_of heavy_refresh now))
heavy_refresh_overlaps get now runs c law few hour minute new staged =
    elim (evaluate_lem get heavy_refresh now runs c law few) [
      | inl (e, _, _, _) ↦ e
      | inr (_, inl shut) ↦ absurd (unfold in_window in ground arith)
      | inr (_, inr (inl same)) ↦ absurd (new same)
      | inr (_, inr (inr (r, i, busy))) ↦
          absurd (ground (arith, not_blocking r.job_name (staged r i)))
    ]
