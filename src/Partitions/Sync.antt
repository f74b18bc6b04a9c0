-- ===== src/Partitions/Sync.antt =====
-- The partitions after pipelines/partitions.py has compared them with the configured projects.
use process_metrics_platform.Common.{
  ℕ, ◌≡◌, ◌≢◌, refl, ◌↔◌, ◌⊎◌, inl, inr, true, false, some, List, [], ◌∷◌, arith, In, same_text_iff,
  Bool-cases, subst,
}
use process_metrics_platform.Partitions.Keys.{
  Keys, member, set_of, difference, Instance, Outcome, no_projects, all_exist, synced, added,
  add_new, compare_keys, sync_project_partitions_sensor, ensure_project_partitions_exist,
}

-- What Dagster documents of dynamic partitions, where no call fails: reading lists the partitions,
-- and adding leaves those that were there and the new ones.
pub record IsInstance (dagster : Instance) : Type 0 where
  pub reads :
      (partitions : Keys)
      → (keys : Keys) × (dagster.get_dynamic_partitions partitions ≡ some keys)
        × ((k : List ℕ) → In k keys ↔ In k partitions)
  pub adds :
      (new partitions : Keys)
      → (after : Keys) × (dagster.add_dynamic_partitions new partitions ≡ some after)
        × ((k : List ℕ) → In k after ↔ (In k new ⊎ In k partitions))

member_iff : (k : List ℕ) (ks : Keys) → (member k ks ≡ true) ↔ In k ks
unfolding member
member_iff k [] = ground arith
member_iff k (x ∷ ks) = ground (arith, same_text_iff x k, member_iff k ks)

set_of_iff : (k : List ℕ) (ks : Keys) → In k (set_of ks) ↔ In k ks
unfolding set_of
set_of_iff k [] = ground arith
set_of_iff k (x ∷ ks) = elim (Bool-cases (member x (set_of ks))) [
  | inl e ↦ rw e (
    (λ h. inr ((set_of_iff k ks).0 h)),
    elim [
      | inl same ↦ subst (λ y. In y (set_of ks)) same ((member_iff x (set_of ks)).0 e)
      | inr h ↦ (set_of_iff k ks).1 h
    ],
  )
  | inr e ↦ rw e (ground (arith, set_of_iff k ks))
]

difference_iff :
    (k : List ℕ) (ks existing : Keys)
    → In k (difference ks existing) ↔ (In k ks × (member k existing ≡ false))
unfolding difference
difference_iff k [] existing = ground arith
difference_iff k (x ∷ ks) existing = elim (Bool-cases (member x existing)) [
  | inl e ↦ rw e (
    (λ h. let (i, f) = (difference_iff k ks existing).0 h in (inr i, f)),
    λ (i, f). elim i [
      | inl same ↦ absurd (ground (arith, subst (λ y. member y existing ≡ true) same e))
      | inr h ↦ (difference_iff k ks existing).1 (h, f)
    ],
  )
  | inr e ↦ rw e (
    elim [
      | inl same ↦ (inl same, subst (λ y. member y existing ≡ false) same e)
      | inr h ↦ let (i, f) = (difference_iff k ks existing).0 h in (inr i, f)
    ],
    λ (i, f). elim i [
      | inl same ↦ inl same
      | inr h ↦ inr ((difference_iff k ks existing).1 (h, f))
    ],
  )
]

-- The configured projects that are no partitions yet.
abbrev IsNew : Keys → Keys → Keys → Type 0
IsNew config partitions new = (k : List ℕ) → In k new ↔ (In k config × (In k partitions → ⊥))

-- Every configured project is a partition, every old partition still is, and nothing else is.
abbrev pub Covers : Keys → Keys → Keys → Type 0
Covers config before after = (k : List ℕ) → In k after ↔ (In k config ⊎ In k before)

-- Some project was missing and was added, or none was and nothing has changed.
abbrev pub IsSynced : Keys → Keys → Outcome × Keys → Type 0
IsSynced config before (outcome, after) =
    ((outcome ≡ synced) × ((k : List ℕ) × In k config × (In k before → ⊥)))
    ⊎ ((outcome ≡ all_exist) × (after ≡ before) × ((k : List ℕ) → In k config → In k before))

module _ (dagster : Instance) (law : IsInstance dagster) where
  In-cases : (k : List ℕ) (ks : Keys) → In k ks ⊎ (In k ks → ⊥)
  In-cases k ks = elim (Bool-cases (member k ks)) [
    | inl e ↦ inl ((member_iff k ks).0 e)
    | inr e ↦ inr (λ i. ground (arith, member_iff k ks))
  ]

  add_new_lem :
      (config new partitions : Keys)
      → IsNew config partitions new
      → Covers config partitions (add_new dagster new partitions).1
        × IsSynced config partitions (add_new dagster new partitions)
  unfolding add_new added
  add_new_lem config [] partitions h =
      let there : (k : List ℕ) → In k config → In k partitions = λ k i.
        elim (In-cases k partitions) [ inl j ↦ j | inr out ↦ absurd ((h k).1 (i, out) tt) ] in
      ((λ k. (λ i. inr i, elim [ inl i ↦ there k i | inr i ↦ i ])), inr (refl, refl, there))
  add_new_lem config (key ∷ keys) partitions h =
      let (after, e, f) = law.adds (key ∷ keys) partitions in
      let (i, out) = (h key).0 (inl refl) in
      rw e (
        (λ k. (
          λ j. elim ((f k).0 j) [ inl n ↦ inl ((h k).0 n).0 | inr o ↦ inr o ],
          λ j. (f k).1 (elim (In-cases k partitions) [
            | inl o ↦ inr o
            | inr apart ↦ elim j [ inl c ↦ inl ((h k).1 (c, apart)) | inr o ↦ inr o ]
          ]),
        )),
        inl (refl, (key, i, out)),
      )

  compare_keys_lem :
      (config partitions : Keys)
      → let result =
          compare_keys dagster config (dagster.get_dynamic_partitions partitions) partitions in
        Covers config partitions result.1 × IsSynced config partitions result
  unfolding compare_keys
  compare_keys_lem config partitions =
      let (existing, e, f) = law.reads partitions in
      rw e (
        add_new_lem config (difference (set_of config) (set_of existing)) partitions (λ k. ground (
          arith,
          difference_iff k (set_of config) (set_of existing),
          set_of_iff k config,
          set_of_iff k existing,
          member_iff k (set_of existing),
          f k,
        )))

  -- If no call to Dagster fails, the partitions after `ensure_project_partitions_exist` are those
  -- that were there and the configured projects, and no others.
  pub ensure_project_partitions_exist-Covers :
      (config partitions : Keys)
      → Covers config partitions (ensure_project_partitions_exist dagster config partitions)
  unfolding ensure_project_partitions_exist
  ensure_project_partitions_exist-Covers config partitions = (compare_keys_lem config partitions).0

  -- If no call to Dagster fails, the sensor does the same, and says what it did: it has no
  -- projects and changes nothing, or it added the projects of which some was missing, or all of
  -- them were partitions and nothing has changed.
  pub sync_project_partitions_sensor-Covers :
      (config partitions : Keys)
      → let result = sync_project_partitions_sensor dagster config partitions in
        Covers config partitions result.1
        × (((config ≡ []) × (result ≡ (no_projects, partitions)))
            ⊎ ((config ≢ []) × IsSynced config partitions result))
  unfolding sync_project_partitions_sensor
  sync_project_partitions_sensor-Covers [] partitions =
      ((λ k. (λ i. inr i, elim [ inl i ↦ absurd (i tt) | inr i ↦ i ])), inl (refl, refl))
  sync_project_partitions_sensor-Covers (key ∷ keys) partitions =
      let (covers, done) = compare_keys_lem (key ∷ keys) partitions in
      (covers, inr ((λ e. ground arith), done))
