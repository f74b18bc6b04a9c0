-- ===== src/Schedules/Runs.antt =====
-- `_get_active_run_ids_by_job` of pipelines/jobs/schedules.py. Dagster's run storage, which it
-- queries, is the parameter `get_run_records`.
use process_metrics_platform.Common.{
  ℕ, String, Bool, false, ◌||◌, Option, none, some, List, [], ◌∷◌, ◌++◌, ◌==◌, str_eq, Dict, lookup,
  insert, if◌then◌else◌,
}

-- DagsterRunStatus
pub data RunStatus : Type 0 where
  queued not_started managed starting started success failure canceling canceled : RunStatus

abbrev pub rank : RunStatus → ℕ
rank queued = 0
rank not_started = 1
rank managed = 2
rank starting = 3
rank started = 4
rank success = 5
rank failure = 6
rank canceling = 7
rank canceled = 8

pub record RunRecord : Type 0 where
  pub job_name : String
  pub run_id : String
  pub status : RunStatus

unfoldable pub active_statuses : List RunStatus
active_statuses = queued ∷ not_started ∷ starting ∷ started ∷ canceling ∷ []

unfoldable pub has_status : List RunStatus → RunStatus → Bool
has_status [] status = false
has_status (x ∷ xs) status = (rank x == rank status) || has_status xs status

-- The runs that have one of the statuses.
unfoldable pub with_status : List RunStatus → List RunRecord → List RunRecord
unfolding has_status
with_status statuses [] = []
with_status statuses (r ∷ rs) =
    let rest = with_status statuses rs in if has_status statuses r.status then r ∷ rest else rest

-- record.dagster_run.job_name in job_names
unfoldable pub contains : List String → String → Bool
contains [] name = false
contains (x ∷ xs) name = str_eq x name || contains xs name

abbrev ids_of : Option (List String) → List String
ids_of none = []
ids_of (some ids) = ids

-- by_job.get(job_name, [])
unfoldable pub ids_at : String → Dict (List String) → List String
ids_at name by_job = ids_of (lookup name by_job)

-- by_job.setdefault(job_name, []).append(run_id)
unfoldable pub add_run : String → String → Dict (List String) → Dict (List String)
unfolding ids_at
add_run name id by_job = insert name (ids_at name by_job ++ id ∷ []) by_job

-- The loop over the records.
unfoldable pub group_runs : List String → List RunRecord → Dict (List String) → Dict (List String)
unfolding contains add_run
group_runs names [] by_job = by_job
group_runs names (r ∷ rs) by_job =
    group_runs names rs
      (if contains names r.job_name then add_run r.job_name r.run_id by_job else by_job)

-- context.instance.get_run_records(filters=RunsFilter(statuses=...), limit=...)
abbrev pub GetRunRecords : Type 0
GetRunRecords = List RunRecord → List RunStatus → ℕ → List RunRecord

module _ (get_run_records : GetRunRecords) where
  unfoldable pub active_run_ids_by_job : List RunRecord → List String → Dict (List String)
  unfolding active_statuses group_runs
  active_run_ids_by_job runs names = group_runs names (get_run_records runs active_statuses 200) []
