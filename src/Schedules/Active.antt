-- ===== src/Schedules/Active.antt =====
-- When `_get_active_run_ids_by_job` of pipelines/jobs/schedules.py finds no run.
use process_metrics_platform.Common.{
  ℕ, ◌≤◌, String, ◌≡◌, ◌≢◌, ◌↔◌, false, List, [], ◌∷◌, arith, Dict, insert, All, In, ◌⊎◌, subst,
  refl, true, length, Bool-cases, inl, inr,
}
use process_metrics_platform.Schedules.Runs.{
  RunStatus, RunRecord, with_status, contains, add_run, active_statuses, active_run_ids_by_job,
  group_runs, GetRunRecords,
}

-- What Dagster documents of get_run_records: it returns runs of the instance that have one of the
-- statuses, and all of them unless there are more than `limit`.
pub record IsRunStorage (get : GetRunRecords) : Type 0 where
  pub returned :
      (runs : List RunRecord) (statuses : List RunStatus) (limit : ℕ) (r : RunRecord)
      → In r (get runs statuses limit)
      → In r (with_status statuses runs)
  pub complete :
      (runs : List RunRecord) (statuses : List RunStatus) (limit : ℕ) (r : RunRecord)
      → length (with_status statuses runs) ≤ limit
      → In r (with_status statuses runs)
      → In r (get runs statuses limit)

-- No record of the list is of one of the jobs.
abbrev NoneOf : List String → List RunRecord → Type 0
NoneOf names rs = All (λ r. contains names r.job_name ≡ false) rs

insert-nonempty {ℓ} : {V : Type ℓ} (k : String) (v : V) (d : Dict V) → insert k v d ≢ []
unfolding insert
insert-nonempty k v [] = ground arith
insert-nonempty k v ((j, w) ∷ d) = ground arith

group_runs-nonempty :
    (names : List String) (rs : List RunRecord) (d : Dict (List String))
    → d ≢ []
    → group_runs names rs d ≢ []
unfolding group_runs add_run
group_runs-nonempty names [] d h = h
group_runs-nonempty names (r ∷ rs) d h = elim (Bool-cases (contains names r.job_name)) [
  | inl e ↦ rw e (group_runs-nonempty names rs _ (insert-nonempty _ _ d))
  | inr e ↦ rw e (group_runs-nonempty names rs d h)
]

group_runs_empty :
    (names : List String) (rs : List RunRecord) → (group_runs names rs [] ≡ []) ↔ NoneOf names rs
unfolding group_runs
group_runs_empty names [] = ground arith
group_runs_empty names (r ∷ rs) = elim (Bool-cases (contains names r.job_name)) [
  | inl e ↦ rw e (
      ground (
        arith,
        group_runs-nonempty names rs (add_run r.job_name r.run_id [])
            (unfold add_run in insert-nonempty _ _ []),
      ))
  | inr e ↦ rw e (ground (arith, group_runs_empty names rs))
]

NoneOf-cases :
    (names : List String) (rs : List RunRecord)
    → ((r : RunRecord) → In r rs → contains names r.job_name ≡ false)
      ⊎ ((r : RunRecord) × In r rs × (contains names r.job_name ≡ true))
NoneOf-cases names [] = inl (λ r h. absurd (h tt))
NoneOf-cases names (r ∷ rs) = elim (Bool-cases (contains names r.job_name)) [
  | inl e ↦ inr (r, inl refl, e)
  | inr e ↦ elim (NoneOf-cases names rs) [
    | inl none ↦ inl (λ s. elim [
      | inl same ↦ subst (λ x. contains names x.job_name ≡ false) same e
      | inr later ↦ none s later
    ])
    | inr (s, later, found) ↦ inr (s, inr later, found)
  ]
]

NoneOf-of :
    (names : List String) (rs : List RunRecord)
    → ((r : RunRecord) → In r rs → contains names r.job_name ≡ false)
    → NoneOf names rs
NoneOf-of names [] h = tt
NoneOf-of names (r ∷ rs) h = (h r (inl refl), NoneOf-of names rs (λ s i. h s (inr i)))

NoneOf-In :
    (names : List String) (rs : List RunRecord) (r : RunRecord)
    → NoneOf names rs
    → In r rs
    → contains names r.job_name ≡ false
NoneOf-In names [] r n h = absurd (h tt)
NoneOf-In names (s ∷ rs) r n (inl same) = subst (λ x. contains names x.job_name ≡ false) same n.0
NoneOf-In names (s ∷ rs) r n (inr later) = NoneOf-In names rs r n.1 later

blocked_none :
    (names : List String) (rs : List RunRecord)
    → ((r : RunRecord) × In r rs × (contains names r.job_name ≡ true))
    → ¬ (NoneOf names rs)
blocked_none names rs (r, i, e) n = ground (arith, NoneOf-In names rs r n i)

-- No active run is of one of the jobs.
abbrev pub IsFree : List String → List RunRecord → Type 0
IsFree names runs =
    (r : RunRecord) → In r (with_status active_statuses runs) → contains names r.job_name ≡ false

-- An active run is of one of the jobs.
abbrev pub IsBusy : List String → List RunRecord → Type 0
IsBusy names runs =
    (r : RunRecord) × In r (with_status active_statuses runs) × (contains names r.job_name ≡ true)

module _ (get : GetRunRecords) (law : IsRunStorage get) where
  -- With at most 200 active runs, no run is found exactly where none of the jobs is active.
  pub active_run_ids_by_job-cases :
      (names : List String) (runs : List RunRecord)
      → length (with_status active_statuses runs) ≤ 200
      → ((active_run_ids_by_job get runs names ≡ []) × IsFree names runs)
        ⊎ ((active_run_ids_by_job get runs names ≢ []) × IsBusy names runs)
  unfolding active_run_ids_by_job
  active_run_ids_by_job-cases names runs few =
      let rs = get runs active_statuses 200 in
      elim (NoneOf-cases names rs) [
        | inl free ↦ inl (
          (group_runs_empty names rs).1 (NoneOf-of names rs free),
          λ r i. free r (law.complete runs active_statuses 200 r few i),
        )
        | inr busy ↦ inr (
          λ none. absurd (blocked_none names rs busy ((group_runs_empty names rs).0 none)),
          (busy.0, law.returned runs active_statuses 200 busy.0 busy.1, busy.2),
        )
      ]
