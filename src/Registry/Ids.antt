-- ===== src/Registry/Ids.antt =====
-- The lookups of pipelines/utils/metric_registry.py.
use Prim.Native.String.{◌++◌}
use process_metrics_platform.Common.{ℕ, String, Option, none, some}
use process_metrics_platform.Registry.Database.{
  select_calculation, select_definition, select_project, sync_dim_projects,
}
use process_metrics_platform.Registry.Action.{
  Value, text, Action, pure, raise, query, execute, ◌>>=◌, ◌>>◌,
}
use process_metrics_platform.Registry.Cache.{get_from_cache, set_in_cache}

abbrev pub calc_key : String → String
calc_key code = "calc_id_" ++ code

abbrev pub def_key : String → String
def_key code = "def_id_" ++ code

abbrev pub proj_key : String → String
proj_key pid = "proj_agg_id_" ++ pid

-- `engine` is the decimal text of id(engine).
abbrev pub unit_key : String → String → String → String
unit_key engine pid code = "unit_" ++ engine ++ "_" ++ pid ++ "_" ++ code

module _ (clock : ℕ → ℕ) where
  -- if val is not None: return val
  unfoldable pub cached_or : Option Value → Action Value → Action Value
  cached_or none m = m
  cached_or (some v) m = pure v

  -- if not result: raise; then cache str(result) and return it
  unfoldable pub store_found : String → Option String → Action Value
  store_found key none = raise
  store_found key (some id) = do set_in_cache clock key (some (text id)); pure (text id)

  unfoldable pub get_calculation_id : String → Action Value
  unfolding cached_or store_found
  get_calculation_id code = do
    val ← get_from_cache clock (calc_key code)
    cached_or val
        (do result ← query (λ db. select_calculation db code); store_found (calc_key code) result)

  unfoldable pub get_definition_id : String → Action Value
  unfolding cached_or store_found
  get_definition_id code = do
    val ← get_from_cache clock (def_key code)
    cached_or val
        (do result ← query (λ db. select_definition db code); store_found (def_key code) result)

  -- `new_id` is the id that the database gives to a new row of metrics.dim_projects.
  module _ (new_id : String → String) where
    unfoldable pub after_select : String → Option String → Action Value
    unfolding store_found
    after_select pid (some id) = store_found (proj_key pid) (some id)
    after_select pid none = do
      execute (sync_dim_projects new_id)
      result ← query (λ db. select_project db pid)
      store_found (proj_key pid) result

    unfoldable pub get_project_agg_id : String → Action Value
    unfolding cached_or after_select
    get_project_agg_id pid = do
      val ← get_from_cache clock (proj_key pid)
      cached_or val (do result ← query (λ db. select_project db pid); after_select pid result)
