-- ===== src/Registry/Batch.antt =====
-- get_project_agg_ids_batch of pipelines/utils/metric_registry.py.
pub mod Collect
pub mod Resolve
use process_metrics_platform.Common.{
  ℕ, String, Bool, true, false, Option, none, some, List, [], ◌∷◌, ◌++◌, Dict, lookup, insert,
  if◌then◌else◌,
}
use process_metrics_platform.Registry.Database.{select_projects, sync_dim_projects}
use process_metrics_platform.Registry.Action.{
  Value, text, Action, pure, raise, query, execute, ◌>>=◌, ◌>>◌,
}
use process_metrics_platform.Registry.Cache.{get_from_cache, set_in_cache}
use process_metrics_platform.Registry.Ids.{proj_key}

-- result[pid] = cached, for a cached id
unfoldable pub keep_cached : String → Option Value → Dict Value → Dict Value
keep_cached pid none result = result
keep_cached pid (some v) result = insert pid v result

-- missing.append(pid), for one that is not cached
unfoldable pub add_missing : String → Option Value → List String → List String
add_missing pid none missing = missing ++ pid ∷ []
add_missing pid (some v) missing = missing

unfoldable pub in_result : Dict Value → String → Bool
in_result result pid = elim (lookup pid result) [ none ↦ false | some _ ↦ true ]

-- Some project of the list has no id yet.
unfoldable pub lacks : Dict Value → List String → Bool
unfolding in_result
lacks result [] = false
lacks result (pid ∷ pids) = if in_result result pid then lacks result pids else true

module _ (clock : ℕ → ℕ) where
  -- The first loop: what the cache has, and the ids that it lacks.
  unfoldable pub collect :
      List String → Dict Value → List String → Action (Dict Value × List String)
  unfolding keep_cached add_missing
  collect [] result missing = pure (result, missing)
  collect (pid ∷ pids) result missing = do
    cached ← get_from_cache clock (proj_key pid)
    collect pids (keep_cached pid cached result) (add_missing pid cached missing)

  -- The loop over the rows of a query.
  unfoldable pub store_rows : List (String × String) → Dict Value → Action (Dict Value)
  store_rows [] result = pure result
  store_rows ((pid, id) ∷ rows) result = do
    set_in_cache clock (proj_key pid) (some (text id))
    store_rows rows (insert pid (text id) result)

  module _ (new_id : String → String) where
    -- Where an id is still missing: one backfill of the table, and one more query.
    unfoldable pub retry : List String → Dict Value → Action (Dict Value)
    unfolding store_rows lacks
    retry missing result =
        if lacks result missing
        then (do
          execute (sync_dim_projects new_id)
          rows ← query (λ db. select_projects db missing)
          store_rows rows result)
        else pure result

    unfoldable pub check_all : List String → Dict Value → Action (Dict Value)
    unfolding lacks
    check_all missing result = if lacks result missing then raise else pure result

    unfoldable pub resolve_missing : List String → Dict Value → Action (Dict Value)
    unfolding store_rows retry check_all
    resolve_missing [] result = pure result
    resolve_missing (pid ∷ pids) result = do
      rows ← query (λ db. select_projects db (pid ∷ pids))
      found ← store_rows rows result
      all ← retry (pid ∷ pids) found
      check_all (pid ∷ pids) all

    unfoldable pub get_project_agg_ids_batch : List String → Action (Dict Value)
    unfolding collect resolve_missing
    get_project_agg_ids_batch pids = do
      (result, missing) ← collect pids [] []
      resolve_missing missing result
