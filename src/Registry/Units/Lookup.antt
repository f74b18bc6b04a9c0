-- ===== src/Registry/Units/Lookup.antt =====
-- What resolve_unit_field of pipelines/utils/metric_registry.py returns, and what it caches.
use process_metrics_platform.Common.{
  ℕ, Bool-cases, ◌+◌, String, ◌≡◌, refl, ◌⊎◌, inl, inr, subst, sym, if◌then◌else◌, Option-cases,
  Bool, false, ◌&&◌, Option, none, some, List, [], ◌∷◌, ◌++◌, arith, lookup, lookup-insert, eq_iff,
  str_eq, All,
}
use process_metrics_platform.Registry.Database.{
  Database, UnitRow, of_project, nulls_last, first_unit, select_unit,
}
use process_metrics_platform.Registry.Action.{Registry}
use process_metrics_platform.Registry.Cache.{ttl, reads_after, get_from_cache, set_in_cache}
use process_metrics_platform.Registry.Ids.{unit_key}
use process_metrics_platform.Registry.Coherence.{holds, fresh_value-Agrees}
use process_metrics_platform.Registry.Units.{unit_of_row, resolve_unit_field}

-- The row is of the unit and of this very project.
abbrev pub IsOwn : String → String → UnitRow → Type 0
IsOwn pid code row = (row.unit_code ≡ code) × (row.project_id ≡ some pid)

-- What may be found where no row is the project's own: nothing, or a global row.
abbrev IsGlobal : Option UnitRow → Type 0
IsGlobal found = (found ≡ none) ⊎ ((g : UnitRow) × (found ≡ some g) × (g.project_id ≡ none))

abbrev asked_for : String → String → UnitRow → Bool
asked_for pid code row = str_eq row.unit_code code && of_project row.project_id pid

-- A row that is not the project's own is not asked for, or is global.
other_row :
    (pid code : String) (row : UnitRow)
    → ¬ (IsOwn pid code row)
    → (asked_for pid code row ≡ false) ⊎ (row.project_id ≡ none)
unfolding of_project
other_row pid code row h = elim (Option-cases row.project_id) [
  | inl global ↦ inr global
  | inr (p, e) ↦ elim (Bool-cases (asked_for pid code row)) [
    | inl asked ↦ absurd (h (ground (arith, eq_iff row.unit_code code, eq_iff p pid)))
    | inr not_asked ↦ inl not_asked
  ]
]

nulls_last-IsGlobal :
    (row : UnitRow) (rest : Option UnitRow)
    → row.project_id ≡ none
    → IsGlobal rest
    → nulls_last row rest ≡ some row
unfolding nulls_last
nulls_last-IsGlobal row none e r = refl
nulls_last-IsGlobal row (some g) e r = ground arith

shape_step :
    (pid code : String) (row : UnitRow) (rest : Option UnitRow)
    → ¬ (IsOwn pid code row)
    → IsGlobal rest
    → IsGlobal (if asked_for pid code row then nulls_last row rest else rest)
shape_step pid code row rest h r = elim (Bool-cases (asked_for pid code row)) [
  | inr not_asked ↦ rw not_asked r
  | inl asked ↦ elim (other_row pid code row h) [
    | inl e ↦ absurd (ground arith)
    | inr e ↦ rw asked (inr (row, nulls_last-IsGlobal row rest e r, e))
  ]
]

first_unit-shape :
    (pid code : String) (rows : List UnitRow)
    → All (λ row. ¬ (IsOwn pid code row)) rows
    → IsGlobal (first_unit pid code rows)
unfolding first_unit
first_unit-shape pid code [] h = inl refl
first_unit-shape pid code (row ∷ rows) h =
    shape_step pid code row (first_unit pid code rows) h.0 (first_unit-shape pid code rows h.1)

-- Where one row is of the unit and of this very project, and no other row is, the query picks that
-- row, wherever it stands among the global rows and those of other projects.
pub first_unit_own :
    (pid code : String) (before : List UnitRow) (own : UnitRow) (after : List UnitRow)
    → IsOwn pid code own
    → All (λ row. ¬ (IsOwn pid code row)) before
    → All (λ row. ¬ (IsOwn pid code row)) after
    → first_unit pid code (before ++ own ∷ after) ≡ some own
unfolding first_unit
first_unit_own pid code [] own after o b a =
    ground (arith, eq_iff own.unit_code code, eq_iff pid pid, first_unit-shape pid code after a)
first_unit_own pid code (row ∷ before) own after o b a =
    ground (arith, other_row pid code row b.0, first_unit_own pid code before own after o b.1 a)

module _ (clock : ℕ → ℕ) (engine pid code : String) where
  absent_once :
      (s : Registry)
      → holds s (unit_key engine pid code) ≡ none
      → unit_of_row (select_unit s.db pid code) ≡ none
      → ((resolve_unit_field clock engine pid code s).1.queries ≡ s.queries + 1)
        × ((resolve_unit_field clock engine pid code s).1.db ≡ s.db)
        × (holds (resolve_unit_field clock engine pid code s).1 (unit_key engine pid code) ≡ none)
  unfolding resolve_unit_field get_from_cache set_in_cache
  absent_once s h e = ground (
    arith,
    eq_iff (unit_key engine pid code) (unit_key engine pid code),
    fresh_value-Agrees (clock s.reads) (lookup (unit_key engine pid code) s.cache) none,
    lookup-insert (unit_key engine pid code) (unit_key engine pid code)
        (record {
          value = none;
          expires_at =
              clock (reads_after (lookup (unit_key engine pid code) s.cache) s.reads) + ttl;
        })
        s.cache,
  )

  -- A unit that is not configured is looked up in the database again by every call, though the
  -- call before has stored its absence: a cached None reads as a miss.
  pub resolve_unit_field_requeries :
      (s : Registry)
      → holds s (unit_key engine pid code) ≡ none
      → unit_of_row (select_unit s.db pid code) ≡ none
      → let t = (resolve_unit_field clock engine pid code s).1 in
        (t.queries ≡ s.queries + 1)
        × ((resolve_unit_field clock engine pid code t).1.queries ≡ t.queries + 1)
  resolve_unit_field_requeries s h e =
      let (asked, same, absent) = absent_once s h e in
      let t = (resolve_unit_field clock engine pid code s).1 in
      (
        asked,
        (absent_once t absent
            (subst (λ (d : Database). unit_of_row (select_unit d pid code) ≡ none) (sym same) e)).0,
      )
