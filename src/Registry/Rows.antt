-- ===== src/Registry/Rows.antt =====
-- The rows of a batch query of pipelines/utils/metric_registry.py, stored one after another.
use process_metrics_platform.Common.{
  ℕ, String, ◌≡◌, refl, ap, sym, inl, inr, Bool, true, false, Option, none, some, List, [], ◌∷◌,
  arith, str_eq, eq_iff, Dict, lookup, insert, lookup-insert, All, Bool-cases,
}
use process_metrics_platform.Registry.Database.{
  DimProject, Database, project_row_id, contains, rows_in, upserted, upsert_all, sync_dim_projects,
  select_project,
}
use process_metrics_platform.Registry.Action.{Value, text, Registry, ok}
use process_metrics_platform.Registry.Cache.{set_in_cache}
use process_metrics_platform.Registry.Ids.{proj_key}
use process_metrics_platform.Registry.Batch.{store_rows}
use process_metrics_platform.Registry.Coherence.{as_text, IsCoherent, store_project}

-- No key stands twice, as a UNIQUE column guarantees.
abbrev pub IsKeyed : Dict DimProject → Type 0
IsKeyed [] = Unit {0}
IsKeyed ((k, v) ∷ d) = (lookup k d ≡ none) × IsKeyed d

insert-IsKeyed :
    (k : String) (v : DimProject) (d : Dict DimProject) → IsKeyed d → IsKeyed (insert k v d)
unfolding insert lookup
insert-IsKeyed k v [] h = (refl, tt)
insert-IsKeyed k v ((j, w) ∷ d) h = elim (Bool-cases (str_eq j k)) [
  | inl e ↦ rw e h
  | inr e ↦
      rw e (ground (arith, lookup-insert k j v d, eq_iff k j, eq_iff j k), insert-IsKeyed k v d h.1)
]

upsert_all-IsKeyed :
    (new_id : String → String) (ps : Dict String) (d : Dict DimProject)
    → IsKeyed d
    → IsKeyed (upsert_all new_id ps d)
unfolding upsert_all
upsert_all-IsKeyed new_id [] d h = h
upsert_all-IsKeyed new_id ((pid, key) ∷ ps) d h =
    upsert_all-IsKeyed new_id ps (insert pid (upserted new_id pid key (lookup pid d)) d)
      (insert-IsKeyed pid (upserted new_id pid key (lookup pid d)) d h)

pub sync-IsKeyed :
    (new_id : String → String) (db : Database)
    → IsKeyed db.dim_projects
    → IsKeyed (sync_dim_projects new_id db).dim_projects
unfolding sync_dim_projects
sync-IsKeyed new_id db h = upsert_all-IsKeyed new_id db.projects db.dim_projects h

-- A pair of a row: the project and the id that the table has for it.
abbrev pub RowOf : Dict DimProject → String × String → Type 0
RowOf d r = project_row_id (lookup r.0 d) ≡ some r.1

RowOf-tail :
    (k : String) (v : DimProject) (d : Dict DimProject) (rows : List (String × String))
    → lookup k d ≡ none
    → All (RowOf d) rows
    → All (RowOf ((k, v) ∷ d)) rows
unfolding lookup
RowOf-tail k v d [] e h = tt
RowOf-tail k v d ((j, id) ∷ rows) e h =
    (ground (arith, h.0, eq_iff k j), RowOf-tail k v d rows e h.1)

pub rows_in-RowOf :
    (ids : List String) (d : Dict DimProject) → IsKeyed d → All (RowOf d) (rows_in ids d)
unfolding rows_in
rows_in-RowOf ids [] h = tt
rows_in-RowOf ids ((k, v) ∷ d) h =
    let rest = RowOf-tail k v d (rows_in ids d) h.0 (rows_in-RowOf ids d h.1) in
    elim (Bool-cases (contains ids k)) [
      | inl e ↦ rw e (unfold lookup in ground (arith, eq_iff k k), rest)
      | inr e ↦ rw e rest
    ]

-- The assignments to `result`.
abbrev pub with_rows : List (String × String) → Dict Value → Dict Value
with_rows [] result = result
with_rows ((pid, id) ∷ rows) result = with_rows rows (insert pid (text id) result)

abbrev pub pick : Bool → Option String → Option Value → Option Value
pick true (some id) old = some (text id)
pick true none old = old
pick false row old = old

-- After the loop a project that was asked for has its row's id, and all else is as before.
pub lookup-with_rows :
    (ids : List String) (d : Dict DimProject) (result : Dict Value) (j : String)
    → IsKeyed d
    → lookup j (with_rows (rows_in ids d) result)
      ≡ pick (contains ids j) (project_row_id (lookup j d)) (lookup j result)
unfolding rows_in lookup
lookup-with_rows ids [] result j h = ground arith
lookup-with_rows ids ((k, v) ∷ d) result j h = elim (Bool-cases (contains ids k)) [
  | inl e ↦ rw e (
      ground (
        arith,
        eq_iff k j,
        lookup-insert k j (text v.id) result,
        lookup-with_rows ids d (insert k (text v.id) result) j h.1,
      ))
  | inr e ↦ rw e (ground (arith, eq_iff k j, lookup-with_rows ids d result j h.1))
]

module _ (clock : ℕ → ℕ) where
  pub store_rows_lem :
      (rows : List (String × String)) (result : Dict Value) (s : Registry)
      → IsCoherent s
      → All (RowOf s.db.dim_projects) rows
      → ((store_rows clock rows result s).0 ≡ ok (with_rows rows result))
        × ((store_rows clock rows result s).1.db ≡ s.db)
        × IsCoherent (store_rows clock rows result s).1
  unfolding store_rows select_project set_in_cache
  store_rows_lem [] result s c h = (refl, refl, c)
  store_rows_lem ((pid, id) ∷ rows) result s c h =
      store_rows_lem rows (insert pid (text id) result)
        (set_in_cache clock (proj_key pid) (some (text id)) s).1
        (store_project clock s (text id) c pid (ap as_text (sym h.0))) h.1
