-- ===== src/Partitions/Keys.antt =====
-- The project keys of pipelines/partitions.py, and how they become partitions. A key is a text, the
-- list of its code points; a Python set is a list in which an element stands once.
use process_metrics_platform.Common.{
  ℕ, Bool, false, ◌||◌, Option, none, some, List, [], ◌∷◌, same_text, if◌then◌else◌,
}
use process_metrics_platform.Strings.{split, strip}

abbrev pub Keys : Type 0
Keys = List (List ℕ)

-- The list without empty texts, each one stripped: `[p.strip() for p in parts if p.strip()]`.
unfoldable pub stripped : Keys → Keys
stripped [] = []
stripped (part ∷ parts) = elim (strip part) [
  | [] ↦ stripped parts
  | c ∷ cs ↦ (c ∷ cs) ∷ stripped parts
]

-- os.getenv("JIRA_PROJECTS", "")
unfoldable pub projects_str : Option (List ℕ) → List ℕ
projects_str none = []
projects_str (some value) = value

unfoldable pub keys_from_env : List ℕ → Keys
unfolding stripped
keys_from_env [] = []
keys_from_env (c ∷ cs) = stripped (split 44 (c ∷ cs))

-- `active` is what get_active_projects_from_db returns, none where it raises.
unfoldable pub get_project_partition_keys : Option Keys → Option (List ℕ) → Keys
unfolding keys_from_env projects_str
get_project_partition_keys (some (key ∷ keys)) env = key ∷ keys
get_project_partition_keys (some []) env = keys_from_env (projects_str env)
get_project_partition_keys none env = keys_from_env (projects_str env)

unfoldable pub member : List ℕ → Keys → Bool
member key [] = false
member key (k ∷ ks) = same_text k key || member key ks

-- set(keys)
unfoldable pub set_of : Keys → Keys
unfolding member
set_of [] = []
set_of (key ∷ keys) = let rest = set_of keys in if member key rest then rest else key ∷ rest

-- The difference of two sets.
unfoldable pub difference : Keys → Keys → Keys
unfolding member
difference [] existing = []
difference (key ∷ keys) existing =
    let rest = difference keys existing in if member key existing then rest else key ∷ rest

-- Dagster's instance with its dynamic partitions: reading them, and adding some to what is there;
-- none is an exception.
pub record Instance : Type 0 where
  pub get_dynamic_partitions : Keys → Option Keys
  pub add_dynamic_partitions : Keys → Keys → Option Keys

pub data Outcome : Type 0 where
  no_projects all_exist failed synced : Outcome

module _ (dagster : Instance) where
  -- What an addition leaves, an exception leaving what was there.
  unfoldable pub added : Keys → Option Keys → Outcome × Keys
  added before none = (failed, before)
  added before (some after) = (synced, after)

  unfoldable pub add_new : Keys → Keys → Outcome × Keys
  unfolding added
  add_new [] partitions = (all_exist, partitions)
  add_new (key ∷ keys) partitions =
      added partitions (dagster.add_dynamic_partitions (key ∷ keys) partitions)

  unfoldable pub compare_keys : Keys → Option Keys → Keys → Outcome × Keys
  unfolding add_new difference set_of
  compare_keys config none partitions = (failed, partitions)
  compare_keys config (some existing) partitions =
      add_new (difference (set_of config) (set_of existing)) partitions

  -- The partitions that the instance has are the state.
  unfoldable pub sync_project_partitions_sensor : Keys → Keys → Outcome × Keys
  unfolding compare_keys
  sync_project_partitions_sensor [] partitions = (no_projects, partitions)
  sync_project_partitions_sensor (key ∷ keys) partitions =
      compare_keys (key ∷ keys) (dagster.get_dynamic_partitions partitions) partitions

  unfoldable pub ensure_project_partitions_exist : Keys → Keys → Keys
  unfolding compare_keys
  ensure_project_partitions_exist config partitions =
      (compare_keys config (dagster.get_dynamic_partitions partitions) partitions).1
