-- ===== src/Schedules/Requests.antt =====
-- When the sensors of pipelines/jobs/schedules.py request a run.
use process_metrics_platform.Common.{
  ℕ, ◌≤◌, String, ◌≡◌, ◌≢◌, refl, ◌⊎◌, ◌↔◌, inl, inr, Bool, true, false, none, some, List, [], ◌∷◌,
  ◌++◌, arith, same_text_iff, Dict, length,
}
use process_metrics_platform.Schedules.Clock.{Utc}
use process_metrics_platform.Schedules.Runs.{
  RunRecord, GetRunRecords, with_status, active_statuses, active_run_ids_by_job,
}
use process_metrics_platform.Schedules.Sensors.{
  Answer, run_request, Cursor, Sensor, cursor_is, guarded, blocking_jobs, in_window, bucket_of,
  key_prefix, evaluate,
}
use process_metrics_platform.Schedules.Active.{
  IsRunStorage, IsFree, IsBusy, active_run_ids_by_job-cases,
}

cursor_is_iff : (c : Cursor) (bucket : List ℕ) → (cursor_is c bucket ≡ true) ↔ (c ≡ some bucket)
unfolding cursor_is
cursor_is_iff none bucket = ground arith
cursor_is_iff (some text) bucket = ground (arith, same_text_iff text bucket)

abbrev pub run_key : Sensor → Utc → List ℕ
run_key sensor now = key_prefix sensor ++ bucket_of sensor now

-- The evaluation requests nothing and leaves the cursor.
abbrev pub IsSkip : Cursor → Answer × Cursor → Type 0
IsSkip before (answer, cursor) = ((key : List ℕ) → answer ≢ run_request key) × (cursor ≡ before)

guarded-cases :
    (inside same : Bool) (found : Dict (List String)) (key bucket : List ℕ) (c : Cursor)
    → ((guarded inside same found key bucket c ≡ (run_request key, some bucket))
        × (inside ≡ true)
        × (same ≡ false)
        × (found ≡ []))
      ⊎ (IsSkip c (guarded inside same found key bucket c)
          × ((inside ≡ false) ⊎ (same ≡ true) ⊎ (found ≢ [])))
unfolding guarded
guarded-cases false same found key bucket c = inr ((λ k e. ground arith, refl), inl refl)
guarded-cases true true found key bucket c = inr ((λ k e. ground arith, refl), inr (inl refl))
guarded-cases true false [] key bucket c = inl (refl, refl, refl, refl)
guarded-cases true false (run ∷ runs) key bucket c =
    inr ((λ k e. ground arith, refl), inr (inr (λ e. ground arith)))

module _ (get : GetRunRecords) (sensor : Sensor) (now : Utc) (runs : List RunRecord) where
  abbrev found : Dict (List String)
  found = active_run_ids_by_job get runs (blocking_jobs sensor)

  -- Whatever the storage returns: a guarded, or a skip and one of its reasons.
  pub evaluate-cases :
      (c : Cursor)
      → ((evaluate get sensor now runs c
            ≡ (run_request (run_key sensor now), some (bucket_of sensor now)))
          × (in_window sensor now ≡ true)
          × (c ≢ some (bucket_of sensor now))
          × (found ≡ []))
        ⊎ (IsSkip c (evaluate get sensor now runs c)
            × ((in_window sensor now ≡ false) ⊎ (c ≡ some (bucket_of sensor now)) ⊎ (found ≢ [])))
  unfolding evaluate
  evaluate-cases c =
      let bucket = bucket_of sensor now in
      elim (guarded-cases (in_window sensor now) (cursor_is c bucket) found (run_key sensor now)
        bucket c) [
          | inl (e, inside, new, free) ↦
              inl (e, inside, (λ same. ground (arith, cursor_is_iff c bucket)), free)
          | inr (skip, reason) ↦ inr (skip, ground (arith, cursor_is_iff c bucket))
        ]

  -- If the storage keeps to what Dagster documents, and at most 200 runs are active, a sensor
  -- requests the run of its bucket exactly when it is evaluated in its window, its cursor is not
  -- that bucket yet, and no active run is of one of the jobs that block it; the cursor is then
  -- the bucket. Otherwise it requests nothing and leaves the cursor as it is.
  pub evaluate_lem :
      (c : Cursor)
      → IsRunStorage get
      → length (with_status active_statuses runs) ≤ 200
      → ((evaluate get sensor now runs c
            ≡ (run_request (run_key sensor now), some (bucket_of sensor now)))
          × (in_window sensor now ≡ true)
          × (c ≢ some (bucket_of sensor now))
          × IsFree (blocking_jobs sensor) runs)
        ⊎ (IsSkip c (evaluate get sensor now runs c)
            × ((in_window sensor now ≡ false)
                ⊎ (c ≡ some (bucket_of sensor now))
                ⊎ IsBusy (blocking_jobs sensor) runs))
  evaluate_lem c law few = elim (evaluate-cases c) [
    | inl (e, inside, new, clear) ↦
        elim (active_run_ids_by_job-cases get law (blocking_jobs sensor) runs few) [
          | inl (_, free) ↦ inl (e, inside, new, free)
          | inr (busy, _) ↦ absurd (busy clear)
        ]
    | inr (skip, reason) ↦ inr (
      skip,
      elim reason [
        | inl shut ↦ inl shut
        | inr (inl same) ↦ inr (inl same)
        | inr (inr held) ↦
            elim (active_run_ids_by_job-cases get law (blocking_jobs sensor) runs few) [
              | inl (clear, _) ↦ absurd (held clear)
              | inr (_, busy) ↦ inr (inr busy)
            ]
      ],
    )
  ]
