-- ===== src/Registry/Projects.antt =====
-- get_project_agg_id of pipelines/utils/metric_registry.py, against the tables.
use process_metrics_platform.Common.{
  ℕ, ◌+◌, sym, ap, String, ◌≡◌, refl, Option, none, some, arith, lookup,
}
use process_metrics_platform.Registry.Database.{
  Database, select_calculation, select_definition, select_project, sync_dim_projects,
}
use process_metrics_platform.Registry.Action.{Value, text, Registry, Result}
use process_metrics_platform.Registry.Cache.{fresh_value, reads_after, get_from_cache, set_in_cache}
use process_metrics_platform.Registry.Ids.{
  proj_key, cached_or, store_found, after_select, get_project_agg_id,
}
use process_metrics_platform.Registry.Coherence.{
  as_text, Agrees, fresh_value-Agrees, IsCoherent, IsCoherent-counts, store_project,
}
use process_metrics_platform.Registry.Sync.{after_sync, select-sync_dim_projects}
use process_metrics_platform.Registry.Refinement.{uncached, Gives}

module _ (new_id : String → String) where
  -- The database after the lookup of a project: backfilled where the project had no row.
  abbrev pub backfilled : Option String → Database → Database
  backfilled none db = sync_dim_projects new_id db
  backfilled (some id) db = db

  pub Agrees-after_sync :
      (o : Option Value) (new : String) (row known : Option String)
      → Agrees o (as_text row)
      → Agrees o (as_text (after_sync new row known))
  Agrees-after_sync o new none known h = ground arith
  Agrees-after_sync o new (some id) known h = h

  -- Ids do not change by a backfill, so the cache still agrees.
  pub sync-IsCoherent :
      (s : Registry) → IsCoherent s → IsCoherent (record s { db = sync_dim_projects new_id s.db })
  unfolding select_calculation select_definition
  sync-IsCoherent s c = record {
    calculations = unfold sync_dim_projects in c.calculations;
    definitions = unfold sync_dim_projects in c.definitions;
    projects = λ pid.
        rw (select-sync_dim_projects new_id s.db pid)
          (Agrees-after_sync _ (new_id pid) (select_project s.db pid) _ (c.projects pid));
  }

  module _ (clock : ℕ → ℕ) where
    store_project-Gives :
        (pid : String) (s : Registry) (o : Option String)
        → IsCoherent s
        → select_project s.db pid ≡ o
        → Gives (store_found clock (proj_key pid) o s) (uncached o) s.db
    unfolding store_found set_in_cache
    store_project-Gives pid s none c e = (refl, refl, c)
    store_project-Gives pid s (some id) c e =
        (refl, refl, store_project clock s (text id) c pid (ap as_text (sym e)))

    after_select-Gives :
        (pid : String) (s : Registry) (o : Option String)
        → IsCoherent s
        → select_project s.db pid ≡ o
        → Gives
            (after_select clock new_id pid o s)
            (uncached (after_sync (new_id pid) o (lookup pid s.db.projects)))
            (backfilled o s.db)
    unfolding after_select
    after_select-Gives pid s (some id) c e = store_project-Gives pid s (some id) c e
    after_select-Gives pid s none c e =
        let db = sync_dim_projects new_id s.db in
        let row = select_project db pid in
        let t : Registry = record s { db = db; queries = s.queries + 1 + 1 } in
        let found = after_sync (new_id pid) none (lookup pid s.db.projects) in
        let same : row ≡ found = rw (select-sync_dim_projects new_id s.db pid) (rw e) in
        rw same (
          store_project-Gives pid t found
            (IsCoherent-counts (record s { db = db }) s.reads (s.queries + 1 + 1)
              (sync-IsCoherent s c))
            same)

    cached-Gives :
        (new : String) (r : Option Value) (m : Registry → Result Value × Registry) (s : Registry)
        (o known : Option String)
        → IsCoherent s
        → Agrees r (as_text o)
        → Gives (m s) (uncached (after_sync new o known)) (backfilled o s.db)
        → Gives (cached_or clock r m s) (uncached (after_sync new o known)) (backfilled o s.db)
    unfolding cached_or
    cached-Gives new none m s o known c a g = g
    cached-Gives new (some v) m s none known c a g = absurd (ground arith)
    cached-Gives new (some v) m s (some id) known c a g = (ground arith, refl, c)

    -- From a cache that agrees with the database, `get_project_agg_id` returns the id of the
    -- project's row; where there is no row, it backfills the table and returns the id of the new
    -- row if clean_jira.projects has the project, and raises ValueError if not. The table is
    -- backfilled in that case only, and the cache goes on to agree.
    pub get_project_agg_id-refines :
        (pid : String) (s : Registry)
        → IsCoherent s
        → Gives
            (get_project_agg_id clock new_id pid s)
            (uncached
              (after_sync (new_id pid) (select_project s.db pid) (lookup pid s.db.projects)))
            (backfilled (select_project s.db pid) s.db)
    unfolding get_project_agg_id get_from_cache
    get_project_agg_id-refines pid s c =
        let now = clock s.reads in
        let o = lookup (proj_key pid) s.cache in
        let n = reads_after o s.reads in
        let t : Registry = record s { reads = n; queries = s.queries + 1 } in
        cached-Gives (new_id pid) (fresh_value now o) _ (record s { reads = n })
          (select_project s.db pid) (lookup pid s.db.projects) (IsCoherent-counts s n s.queries c)
          (fresh_value-Agrees now o _ (c.projects pid))
          (after_select-Gives pid t (select_project s.db pid)
            (IsCoherent-counts s n (s.queries + 1) c) refl)
