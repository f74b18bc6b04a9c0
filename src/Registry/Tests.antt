-- ===== src/Registry/Tests.antt =====
-- The lookups of pipelines/utils/metric_registry.py on small databases.
use process_metrics_platform.Common.{
  ℕ, ◌+◌, ◌*◌, String, ◌≡◌, refl, inl, none, some, [], ◌∷◌, arith, lookup, insert,
}
use process_metrics_platform.Registry.Database.{
  UnitRow, Database, select_calculation, select_project, select_unit, select_projects,
  sync_dim_projects,
}
use process_metrics_platform.Registry.Action.{text, unit, Registry, ok, value_error}
use process_metrics_platform.Registry.Cache.{get_from_cache, set_in_cache}
use process_metrics_platform.Registry.Ids.{
  get_calculation_id, get_definition_id, get_project_agg_id,
}
use process_metrics_platform.Registry.Batch.{get_project_agg_ids_batch}
use process_metrics_platform.Registry.Units.{unit_of_row, resolve_unit_field}
use process_metrics_platform.Registry.Units.Lookup.{resolve_unit_field_requeries}
use process_metrics_platform.Registry.Coherence.{IsCoherent}
use process_metrics_platform.Registry.Refinement.{Gives, uncached, get_calculation_id-refines}
use process_metrics_platform.Registry.Sync.{after_sync}
use process_metrics_platform.Registry.Projects.{backfilled, get_project_agg_id-refines}
use process_metrics_platform.Registry.Batch.Resolve.{Answers, get_project_agg_ids_batch-Answers}
use process_metrics_platform.Registry.Ttl.{get_calculation_id_cached}

abbrev clock : ℕ → ℕ
clock n = 1000 + 10 * n

abbrev new_id : String → String
new_id pid = "agg-new"

abbrev global_unit : UnitRow
global_unit = record {
  unit_code = "points";
  project_id = none;
  source_field_id = some "field-g";
  source_entity = some "issue";
}

abbrev own_unit : UnitRow
own_unit = record {
  unit_code = "points";
  project_id = some "p1";
  source_field_id = some "field-1";
  source_entity = none;
}

abbrev db : Database
db = record {
  calculations = ("lead_time", "calc-1") ∷ [];
  definitions = ("velocity", "def-1") ∷ [];
  dim_projects = ("p1", record { id = "agg-1"; project_key = "OLD" }) ∷ [];
  projects = ("p1", "ONE") ∷ ("p2", "TWO") ∷ [];
  units = global_unit ∷ own_unit ∷ [];
}

abbrev empty : Registry
empty = record { cache = []; db = db; reads = 0; queries = 0 }

empty-IsCoherent : IsCoherent empty
unfolding lookup
empty-IsCoherent = record {
  calculations = λ c. inl refl;
  definitions = λ c. inl refl;
  projects = λ c. inl refl;
}

program : Unit {0}
unfolding get_calculation_id get_definition_id get_project_agg_id get_project_agg_ids_batch
    resolve_unit_field get_from_cache set_in_cache select_calculation select_project select_unit
    select_projects sync_dim_projects lookup insert
program = tt

abbrev after_one : Registry
after_one = record {
  cache = ("calc_id_lead_time", record { value = some (text "calc-1"); expires_at = 1300 }) ∷ [];
  db = db;
  reads = 1;
  queries = 1;
}

get_calculation_id-lead_time :
    get_calculation_id clock "lead_time" empty ≡ (ok (text "calc-1"), after_one)
unfolding program
get_calculation_id-lead_time = refl

get_calculation_id-unknown : (get_calculation_id clock "nope" empty).0 ≡ value_error
unfolding program
get_calculation_id-unknown = refl

get_project_agg_id-backfills : (get_project_agg_id clock new_id "p2" empty).0 ≡ ok (text "agg-new")
unfolding program
get_project_agg_id-backfills = refl

batch-both :
    (get_project_agg_ids_batch clock new_id ("p1" ∷ "p2" ∷ []) empty).0
    ≡ ok (("p1", text "agg-1") ∷ ("p2", text "agg-new") ∷ [])
unfolding program
batch-both = refl

batch-unknown : (get_project_agg_ids_batch clock new_id ("p1" ∷ "p9" ∷ []) empty).0 ≡ value_error
unfolding program
batch-unknown = refl

unit-own : (resolve_unit_field clock "7" "p1" "points" empty).0 ≡ ok (some (unit "field-1" none))
unfolding program
unit-own = refl

get_calculation_id-refines_example :
    Gives
      (get_calculation_id clock "lead_time" empty)
      (uncached (select_calculation db "lead_time"))
      db
get_calculation_id-refines_example =
    get_calculation_id-refines clock "lead_time" empty empty-IsCoherent

get_project_agg_id-refines_example :
    Gives
      (get_project_agg_id clock new_id "p2" empty)
      (uncached (after_sync "agg-new" (select_project db "p2") (lookup "p2" db.projects)))
      (backfilled new_id (select_project db "p2") db)
get_project_agg_id-refines_example =
    get_project_agg_id-refines new_id clock "p2" empty empty-IsCoherent

get_project_agg_ids_batch-Answers_example :
    Answers new_id clock db
      ("p1" ∷ "p2" ∷ [])
      (get_project_agg_ids_batch clock new_id ("p1" ∷ "p2" ∷ []) empty)
unfolding lookup
get_project_agg_ids_batch-Answers_example =
    get_project_agg_ids_batch-Answers new_id clock empty ("p1" ∷ "p2" ∷ []) empty-IsCoherent
      (refl, tt)

abbrev no_database : Database
no_database = record {
  calculations = [];
  definitions = [];
  dim_projects = [];
  projects = [];
  units = [];
}

get_calculation_id_cached_example :
    get_calculation_id clock "lead_time" (record after_one { db = no_database })
    ≡ (ok (text "calc-1"), record after_one { db = no_database; reads = 2 })
get_calculation_id_cached_example =
    get_calculation_id_cached clock "lead_time" empty after_one (text "calc-1") 0 no_database
      get_calculation_id-lead_time (omega arith) (omega arith) (omega arith)

resolve_unit_field_requeries_example :
    ((resolve_unit_field clock "7" "p1" "hours" empty).1.queries ≡ 1)
    × ((resolve_unit_field clock "7" "p1" "hours"
          (resolve_unit_field clock "7" "p1" "hours" empty).1).1.queries
        ≡ (resolve_unit_field clock "7" "p1" "hours" empty).1.queries + 1)
unfolding lookup select_unit unit_of_row
resolve_unit_field_requeries_example =
    resolve_unit_field_requeries clock "7" "p1" "hours" empty refl refl
