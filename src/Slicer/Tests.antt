-- ===== src/Slicer/Tests.antt =====
-- The graph and the search of pipelines/utils/smart_slicer.py on a small schema.
use process_metrics_platform.Common.{
  Option, str_eq, if◌then◌else◌, ◌+◌, ◌≢◌, String, ◌≡◌, refl, ◌⊎◌, ◌↔◌, none, some, List, [], ◌∷◌,
  lookup, insert,
}
use process_metrics_platform.Slicer.Graph.{ForeignKey, Table, Edge, Graph, edges_of, build_graph}
use process_metrics_platform.Slicer.Graph.Edges.{EdgeAt}
use process_metrics_platform.Slicer.Graph.Symmetric.{flip}
use process_metrics_platform.Slicer.Graph.Declared.{Declares, build_graph-Declares}
use process_metrics_platform.Slicer.Search.{find_path, search, edge_count, out_of_fuel}
use process_metrics_platform.Slicer.Mapping.{Inspector, Slicer, get_slice_mapping}
use process_metrics_platform.Slicer.Search.Terminates.{search-enough_fuel}

abbrev refers : String → String → ForeignKey
refers column table = record {
  referred_schema = none;
  referred_table = table;
  constrained_columns = column ∷ [];
  referred_columns = "id" ∷ [];
}

-- Issues refer to projects and to their sprint, and sprints to projects.
abbrev tables : List Table
tables =
    record {
      name = "issues";
      foreign_keys = refers "sprint_id" "sprints" ∷ refers "project_id" "projects" ∷ [];
    }
    ∷ record { name = "sprints"; foreign_keys = refers "project_id" "projects" ∷ [] }
    ∷ record { name = "projects"; foreign_keys = [] }
    ∷ record { name = "users"; foreign_keys = [] }
    ∷ []

abbrev graph : Graph
graph = build_graph "c" tables

program : Unit {0}
unfolding build_graph find_path edges_of lookup insert
program = tt

abbrev issue_project : Edge
issue_project = record { table = "c.projects"; local_col = "project_id"; ref_col = "id" }

find_path-direct : find_path graph "c.issues" "c.projects" ≡ some (issue_project ∷ [])
unfolding program
find_path-direct = refl

find_path_self : find_path graph "c.issues" "c.issues" ≡ some []
unfolding program
find_path_self = refl

find_path-unconnected : find_path graph "c.issues" "c.users" ≡ none
unfolding program
find_path-unconnected = refl

find_path-missing : find_path graph "c.issues" "c.nothing" ≡ none
unfolding program
find_path-missing = refl

build_graph-Declares_example : EdgeAt graph "c.issues" issue_project ↔ (
    Declares "c" tables "c.issues" issue_project
    ⊎ Declares "c" tables "c.projects" (flip "c.issues" issue_project))
build_graph-Declares_example = build_graph-Declares "c" tables "c.issues" issue_project

search-enough_fuel_example :
    search graph "c.issues" "c.users" (edge_count graph + 2) ([] ∷ []) ("c.issues" ∷ [])
    ≢ out_of_fuel
search-enough_fuel_example = search-enough_fuel graph "c.issues" "c.users"

abbrev inspector : Inspector
inspector = record {
  tables = λ schema. some (
      record { name = "issues"; foreign_keys = refers "project_id" "projects" ∷ [] }
      ∷ record { name = "projects"; foreign_keys = [] }
      ∷ []);
  columns = λ schema table. if str_eq table "projects" then some ("id" ∷ "name" ∷ []) else none;
}

abbrev fresh : Slicer
fresh = record { schema_cache = none; columns_cache = [] }

-- The database answers with the query itself.
abbrev echo : String → Option String
echo query = some query

get_slice_mapping-joined :
    (get_slice_mapping inspector echo "clean_jira.issues" "clean_jira.projects.name" fresh).0
    ≡ some
        "SELECT CAST(t0.id AS TEXT) AS source_id, t1.name AS slice_value FROM clean_jira.issues t0 JOIN clean_jira.projects t1 ON t0.project_id = t1.id"
unfolding get_slice_mapping program
get_slice_mapping-joined = refl

get_slice_mapping-short :
    (get_slice_mapping inspector echo "clean_jira.issues" "projects.name" fresh).0 ≡ none
unfolding get_slice_mapping
get_slice_mapping-short = refl

abbrev source : String
source = "clean_jira.issues"
