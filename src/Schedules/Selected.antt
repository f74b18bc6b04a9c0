-- ===== src/Schedules/Selected.antt =====
-- Which assets the jobs of pipelines/jobs/schedules.py select, and which jobs their sensors name.
use process_metrics_platform.Common.{String, List, [], ◌∷◌}
use process_metrics_platform.Schedules.Jobs.{Job}

unfoldable pub names_of : List Job → List String
names_of [] = []
names_of (job ∷ rest) = job.name ∷ names_of rest
