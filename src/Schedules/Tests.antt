-- ===== src/Schedules/Tests.antt =====
-- The sensors of pipelines/jobs/schedules.py at given times, over a list of runs.
use process_metrics_platform.Common.{
  AreDistinct, ℕ, zero, suc, ◌≤◌, ◌≡◌, ◌≢◌, refl, ◌⊎◌, inl, inr, true, false, none, some, List, [],
  ◌∷◌, arith, take, length, In, codes, lookup, insert,
}
use process_metrics_platform.Schedules.Clock.{Utc, day_bucket, hour_bucket}
use process_metrics_platform.Schedules.Runs.{
  success, started, queued, RunRecord, GetRunRecords, with_status, active_statuses, contains,
}
use process_metrics_platform.Schedules.Sensors.{
  run_request, waiting, blocked, light_refresh, heavy_refresh, heavy_cfd, blocking_jobs, in_window,
  bucket_of, evaluate,
}
use process_metrics_platform.Schedules.Active.{IsRunStorage, IsFree, IsBusy}
use process_metrics_platform.Schedules.Requests.{run_key, IsSkip, evaluate_lem}
use process_metrics_platform.Schedules.Once.{Evaluation, requested, requested-AreDistinct}
use process_metrics_platform.Schedules.Overlap.{heavy_refresh_overlaps}

-- A storage that lists the matching runs in order.
abbrev newest : GetRunRecords
newest runs statuses limit = take limit (with_status statuses runs)

In-take {ℓ} : {A : Type ℓ} (n : ℕ) (xs : List A) (x : A) → In x (take n xs) → In x xs
In-take zero [] x i = i
In-take zero (y ∷ xs) x i = absurd (i tt)
In-take (suc n) [] x i = i
In-take (suc n) (y ∷ xs) x (inl e) = inl e
In-take (suc n) (y ∷ xs) x (inr i) = inr (In-take n xs x i)

take_all {ℓ} : {A : Type ℓ} (n : ℕ) (xs : List A) → length xs ≤ n → take n xs ≡ xs
take_all zero [] h = refl
take_all zero (y ∷ xs) h = absurd (omega arith)
take_all (suc n) [] h = refl
take_all (suc n) (y ∷ xs) h = rw (take_all n xs (omega arith)) refl

newest-IsRunStorage : IsRunStorage newest
newest-IsRunStorage = record {
  returned = λ runs statuses limit r i. In-take limit (with_status statuses runs) r i;
  complete = λ runs statuses limit r few i. rw (take_all limit (with_status statuses runs) few) i;
}

abbrev at : ℕ → ℕ → Utc
at hour minute = record { year = 2026; month = 3; day = 9; hour = hour; minute = minute }

abbrev cfd_runs : List RunRecord
cfd_runs =
    record { job_name = "metrics_heavy_cfd_job"; run_id = "run-2"; status = started }
    ∷ record { job_name = "jira_sync_job"; run_id = "run-1"; status = success }
    ∷ []

abbrev sync_runs : List RunRecord
sync_runs = record { job_name = "jira_sync_job"; run_id = "run-3"; status = queued } ∷ cfd_runs

program : Unit {0}
unfolding evaluate requested with_status contains day_bucket hour_bucket lookup insert
program = tt

buckets :
    (day_bucket (at 2 35) ≡ codes "2026-03-09") × (hour_bucket (at 2 35) ≡ codes "2026-03-09T02")
unfolding day_bucket hour_bucket
buckets = (refl, refl)

light_at_five :
    evaluate newest light_refresh (at 14 5) cfd_runs none
    ≡ (run_request (codes "metrics-light-refresh-2026-03-09T14"), some (codes "2026-03-09T14"))
unfolding program
light_at_five = refl

light_at_six : evaluate newest light_refresh (at 14 6) [] none ≡ (waiting, none)
unfolding program
light_at_six = refl

light_blocked :
    evaluate newest light_refresh (at 14 5) sync_runs none
    ≡ (blocked (("jira_sync_job", "run-3" ∷ []) ∷ []), none)
unfolding program
light_blocked = refl

cfd_after_cfd :
    evaluate newest heavy_cfd (at 2 35) cfd_runs none
    ≡ (blocked (("metrics_heavy_cfd_job", "run-2" ∷ []) ∷ []), none)
unfolding program
cfd_after_cfd = refl

evaluate_lem_example :
    ((evaluate newest light_refresh (at 14 5) cfd_runs none
        ≡ (run_request (run_key light_refresh (at 14 5)), some (bucket_of light_refresh (at 14 5))))
      × (in_window light_refresh (at 14 5) ≡ true)
      × (none ≢ some (bucket_of light_refresh (at 14 5)))
      × IsFree (blocking_jobs light_refresh) cfd_runs)
    ⊎ (IsSkip none (evaluate newest light_refresh (at 14 5) cfd_runs none)
        × ((in_window light_refresh (at 14 5) ≡ false)
            ⊎ (none ≡ some (bucket_of light_refresh (at 14 5)))
            ⊎ IsBusy (blocking_jobs light_refresh) cfd_runs))
unfolding with_status active_statuses
evaluate_lem_example =
    evaluate_lem newest light_refresh (at 14 5) cfd_runs none newest-IsRunStorage (omega arith)

heavy_refresh_overlaps_example :
    evaluate newest heavy_refresh (at 2 35) cfd_runs none
    ≡ (run_request (run_key heavy_refresh (at 2 35)), some (bucket_of heavy_refresh (at 2 35)))
unfolding with_status active_statuses
heavy_refresh_overlaps_example =
    heavy_refresh_overlaps newest (at 2 35) cfd_runs none newest-IsRunStorage (omega arith) refl
      refl (λ e. ground arith) (λ r i. ground arith)

-- Two evaluations in the same hour, and one in the next.
abbrev evaluations : List Evaluation
evaluations =
    record { now = at 14 5; runs = [] }
    ∷ record { now = at 14 5; runs = cfd_runs }
    ∷ record { now = at 15 5; runs = sync_runs }
    ∷ record { now = at 16 5; runs = cfd_runs }
    ∷ []

requested-keys :
    requested newest light_refresh evaluations none
    ≡ codes "metrics-light-refresh-2026-03-09T14" ∷ codes "metrics-light-refresh-2026-03-09T16" ∷ []
unfolding program
requested-keys = refl

requested-AreDistinct_example : AreDistinct (requested newest light_refresh evaluations none)
requested-AreDistinct_example =
    requested-AreDistinct newest light_refresh evaluations 0 none (ground arith)
