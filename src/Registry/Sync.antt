-- ===== src/Registry/Sync.antt =====
-- What the backfill of metrics.dim_projects does to the lookup of one project.
use process_metrics_platform.Common.{
  String, ◌≡◌, refl, Option, none, some, [], ◌∷◌, arith, eq_iff, Dict, lookup, insert,
  lookup-insert,
}
use process_metrics_platform.Registry.Database.{
  DimProject, Database, project_row_id, select_project, upserted, upsert_all, sync_dim_projects,
}

-- A project with a row keeps its id; one of the source table without a row gets a new id.
abbrev pub after_sync : String → Option String → Option String → Option String
after_sync new (some id) known = some id
after_sync new none none = none
after_sync new none (some key) = some new

module _ (new_id : String → String) where
  upserted-id :
      (pid key : String) (row : Option DimProject)
      → some (upserted new_id pid key row).id
        ≡ after_sync (new_id pid) (project_row_id row) (some key)
  unfolding upserted
  upserted-id pid key none = refl
  upserted-id pid key (some row) = refl

  after_sync_idem :
      (new : String) (row known : Option String) (key : String)
      → after_sync new (after_sync new row (some key)) known ≡ after_sync new row (some key)
  after_sync_idem new none known key = refl
  after_sync_idem new (some id) known key = refl

  upsert_all-lookup :
      (pid : String) (ps : Dict String) (dims : Dict DimProject)
      → project_row_id (lookup pid (upsert_all new_id ps dims))
        ≡ after_sync (new_id pid) (project_row_id (lookup pid dims)) (lookup pid ps)
  unfolding upsert_all lookup
  upsert_all-lookup pid [] dims = ground arith
  upsert_all-lookup pid ((q, key) ∷ ps) dims = ground (
    arith,
    eq_iff q pid,
    upsert_all-lookup pid ps (insert q (upserted new_id q key (lookup q dims)) dims),
    lookup-insert q pid (upserted new_id q key (lookup q dims)) dims,
    upserted-id q key (lookup q dims),
  )

  pub select-sync_dim_projects :
      (db : Database) (pid : String)
      → select_project (sync_dim_projects new_id db) pid
        ≡ after_sync (new_id pid) (select_project db pid) (lookup pid db.projects)
  unfolding select_project sync_dim_projects
  select-sync_dim_projects db pid = upsert_all-lookup pid db.projects db.dim_projects
