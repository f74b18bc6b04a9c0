-- ===== src/Registry/Database.antt =====
-- The tables that pipelines/utils/metric_registry.py reads, and its SQL statements. A table whose
-- key column is UNIQUE in db/schemas/metrics_schema.sql is a dictionary by that column; a UUID is
-- its text.
use process_metrics_platform.Common.{
  String, Bool, true, false, not, ◌&&◌, ◌||◌, Option, none, some, List, [], ◌∷◌, str_eq, Dict,
  lookup, insert, if◌then◌else◌,
}

pub record DimProject : Type 0 where
  pub id : String
  pub project_key : String

pub record UnitRow : Type 0 where
  pub unit_code : String
  pub project_id : Option String
  pub source_field_id : Option String
  pub source_entity : Option String

pub record Database : Type 0 where
  pub calculations : Dict String
  pub definitions : Dict String
  pub dim_projects : Dict DimProject
  pub projects : Dict String
  pub units : List UnitRow

-- SELECT id FROM metrics.calculations WHERE calc_code = :calc_code
unfoldable pub select_calculation : Database → String → Option String
select_calculation db code = lookup code db.calculations

-- SELECT id FROM metrics.definitions WHERE metric_code = :metric_code
unfoldable pub select_definition : Database → String → Option String
select_definition db code = lookup code db.definitions

abbrev pub project_row_id : Option DimProject → Option String
project_row_id none = none
project_row_id (some row) = some row.id

-- SELECT id FROM metrics.dim_projects WHERE project_id = :project_id
unfoldable pub select_project : Database → String → Option String
select_project db pid = project_row_id (lookup pid db.dim_projects)

-- pid = ANY(ids)
unfoldable pub contains : List String → String → Bool
contains [] pid = false
contains (x ∷ xs) pid = str_eq x pid || contains xs pid

unfoldable pub rows_in : List String → Dict DimProject → List (String × String)
unfolding contains
rows_in ids [] = []
rows_in ids ((pid, row) ∷ rows) =
    let rest = rows_in ids rows in if contains ids pid then (pid, row.id) ∷ rest else rest

-- SELECT project_id, id FROM metrics.dim_projects WHERE project_id = ANY(:ids)
unfoldable pub select_projects : Database → List String → List (String × String)
unfolding rows_in
select_projects db ids = rows_in ids db.dim_projects

-- The row of one project after the upsert: a conflict keeps the id and takes the new key.
unfoldable pub upserted : (String → String) → String → String → Option DimProject → DimProject
upserted new_id pid key none = record { id = new_id pid; project_key = key }
upserted new_id pid key (some row) = record row { project_key = key }

unfoldable pub upsert_all : (String → String) → Dict String → Dict DimProject → Dict DimProject
unfolding upserted
upsert_all new_id [] dims = dims
upsert_all new_id ((pid, key) ∷ rest) dims =
    upsert_all new_id rest (insert pid (upserted new_id pid key (lookup pid dims)) dims)

-- INSERT INTO metrics.dim_projects ... SELECT ... FROM clean_jira.projects ON CONFLICT DO UPDATE.
-- `new_id` stands for gen_random_uuid(), the default of the id column.
unfoldable pub sync_dim_projects : (String → String) → Database → Database
unfolding upsert_all
sync_dim_projects new_id db = record db {
  dim_projects = upsert_all new_id db.projects db.dim_projects;
}

-- WHERE unit_code = :unit_code AND (project_id = :project_id OR project_id IS NULL)
unfoldable pub of_project : Option String → String → Bool
of_project none pid = true
of_project (some p) pid = str_eq p pid

unfoldable pub is_global : Option String → Bool
is_global none = true
is_global (some p) = false

-- NULLS LAST: a row with no project gives way to one of the project.
unfoldable pub nulls_last : UnitRow → Option UnitRow → Option UnitRow
unfolding is_global
nulls_last mine none = some mine
nulls_last mine (some other) =
    if is_global mine.project_id && not (is_global other.project_id) then some other else some mine

-- ORDER BY project_id NULLS LAST LIMIT 1
unfoldable pub first_unit : String → String → List UnitRow → Option UnitRow
unfolding of_project nulls_last
first_unit pid code [] = none
first_unit pid code (row ∷ rows) =
    let rest = first_unit pid code rows in
    if str_eq row.unit_code code && of_project row.project_id pid then nulls_last row rest else rest

unfoldable pub select_unit : Database → String → String → Option UnitRow
unfolding first_unit
select_unit db pid code = first_unit pid code db.units
