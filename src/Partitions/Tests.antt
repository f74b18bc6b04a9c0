-- ===== src/Partitions/Tests.antt =====
-- Project partitions of pipelines/partitions.py over a store that appends what is new.
use process_metrics_platform.Partitions.Credentials.{Project, Integration, get_project_credentials}
use process_metrics_platform.Common.{
  ℕ, String, true, Option, str_eq, if◌then◌else◌, ◌≡◌, refl, ◌↔◌, ◌⊎◌, none, some, List, [], ◌∷◌,
  ◌++◌, ◌≢◌, arith, In, codes, same_text,
}
use process_metrics_platform.Strings.{split, strip}
use process_metrics_platform.Partitions.Keys.{
  Keys, Instance, no_projects, synced, get_project_partition_keys, sync_project_partitions_sensor,
  ensure_project_partitions_exist,
}
use process_metrics_platform.Partitions.Sync.{
  IsInstance, Covers, IsSynced, ensure_project_partitions_exist-Covers,
  sync_project_partitions_sensor-Covers,
}

abbrev store : Instance
store = record {
  get_dynamic_partitions = λ partitions. some partitions;
  add_dynamic_partitions = λ new partitions. some (new ++ partitions);
}

In-append : (k : List ℕ) (ks ls : Keys) → In k (ks ++ ls) ↔ (In k ks ⊎ In k ls)
In-append k [] ls = ground arith
In-append k (x ∷ ks) ls = ground (arith, In-append k ks ls)

store-IsInstance : IsInstance store
store-IsInstance = record {
  reads = λ partitions. (partitions, refl, λ k. (λ i. i, λ i. i));
  adds = λ new partitions. (new ++ partitions, refl, λ k. In-append k new partitions);
}

keys_from_environment :
    get_project_partition_keys none (some (codes " ONE, ,TWO ")) ≡ codes "ONE" ∷ codes "TWO" ∷ []
unfolding get_project_partition_keys split strip
keys_from_environment = refl

keys_from_database :
    get_project_partition_keys (some (codes "DB" ∷ [])) (some (codes "ONE")) ≡ codes "DB" ∷ []
unfolding get_project_partition_keys
keys_from_database = refl

abbrev projects : Keys
projects = codes "ONE" ∷ codes "TWO" ∷ codes "ONE" ∷ []

sync-one :
    sync_project_partitions_sensor store projects (codes "OLD" ∷ codes "TWO" ∷ [])
    ≡ (synced, codes "ONE" ∷ codes "OLD" ∷ codes "TWO" ∷ [])
unfolding sync_project_partitions_sensor same_text
sync-one = refl

ensure_project_partitions_exist-Covers_example :
    Covers projects
      (codes "OLD" ∷ [])
      (ensure_project_partitions_exist store projects (codes "OLD" ∷ []))
ensure_project_partitions_exist-Covers_example =
    ensure_project_partitions_exist-Covers store store-IsInstance projects (codes "OLD" ∷ [])

sync_project_partitions_sensor-Covers_example :
    Covers projects
      (codes "OLD" ∷ [])
      (sync_project_partitions_sensor store projects (codes "OLD" ∷ [])).1
    × (((projects ≡ [])
          × (sync_project_partitions_sensor store projects (codes "OLD" ∷ [])
              ≡ (no_projects, codes "OLD" ∷ [])))
        ⊎ ((projects ≢ [])
            × IsSynced projects
                (codes "OLD" ∷ [])
                (sync_project_partitions_sensor store projects (codes "OLD" ∷ []))))
sync_project_partitions_sensor-Covers_example =
    sync_project_partitions_sensor-Covers store store-IsInstance projects (codes "OLD" ∷ [])

abbrev shop : Project
shop = record {
  external_key = "SHOP";
  name = "Shop";
  tool_integration_id = some "i1";
  is_active = true;
  created_at = 7;
}

abbrev jira : Integration
jira = record {
  id = "i1";
  instance_url = some "https://jira.example.com";
  user_email = none;
  secret_provider = some "env";
  secret_reference = some "JIRA_TOKEN";
  api_token_unsafe = none;
  is_active = true;
}

abbrev environment : String → Option String
environment key = if str_eq key "JIRA_TOKEN" then some "t0ken" else none

shop_token :
    get_project_credentials environment (some (shop ∷ [], jira ∷ [])) "SHOP"
    ≡ some record {
      project_key = "SHOP";
      project_name = "Shop";
      integration_id = "i1";
      instance_url = "https://jira.example.com";
      user_email = "";
      api_token = "t0ken";
    }
unfolding get_project_credentials
shop_token = refl
