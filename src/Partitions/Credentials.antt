-- ===== src/Partitions/Credentials.antt =====
-- pipelines/utils/db_config.py: the active projects of the database with their credentials.
use process_metrics_platform.Common.{
  ℕ, String, Bool, false, not, ◌&&◌, Option, none, some, List, [], ◌∷◌, ◌++◌, leb, str_eq,
  if◌then◌else◌,
}

-- The columns of platform.projects and platform.tool_integrations that the query reads; NULL is none.
pub record Project : Type 0 where
  pub external_key : String
  pub name : String
  pub tool_integration_id : Option String
  pub is_active : Bool
  pub created_at : ℕ

pub record Integration : Type 0 where
  pub id : String
  pub instance_url : Option String
  pub user_email : Option String
  pub secret_provider : Option String
  pub secret_reference : Option String
  pub api_token_unsafe : Option String
  pub is_active : Bool

pub record ProjectCredentials : Type 0 where
  pub project_key : String
  pub project_name : String
  pub integration_id : String
  pub instance_url : String
  pub user_email : String
  pub api_token : String

-- a = b in SQL, where NULL equals nothing
abbrev pub equals : Option String → String → Bool
equals none t = false
equals (some s) t = str_eq s t

abbrev pub Row : Type 0
Row = Project × Integration

-- The join and its conditions
unfoldable pub joins : Project → Integration → Bool
joins p t = equals p.tool_integration_id t.id && p.is_active && t.is_active

unfoldable pub rows_of : Project → List Integration → List Row
unfolding joins
rows_of p [] = []
rows_of p (t ∷ ts) = let rest = rows_of p ts in if joins p t then (p, t) ∷ rest else rest

unfoldable pub join_rows : List Project → List Integration → List Row
unfolding rows_of
join_rows [] ts = []
join_rows (p ∷ ps) ts = rows_of p ts ++ join_rows ps ts

-- ORDER BY p.created_at
unfoldable pub place_row : Row → List Row → List Row
place_row row [] = row ∷ []
place_row row (r ∷ rows) =
    let rest = place_row row rows in
    if leb (row.0).created_at (r.0).created_at then row ∷ r ∷ rows else r ∷ rest

unfoldable pub order_rows : List Row → List Row
unfolding place_row
order_rows [] = []
order_rows (row ∷ rows) = place_row row (order_rows rows)

-- value or ""
abbrev pub or_empty : Option String → String
or_empty none = ""
or_empty (some s) = s

module _ (getenv : String → Option String) where
  -- secret_provider == "env" and secret_reference
  unfoldable pub is_env : Option String → Option String → Bool
  is_env (some provider) (some reference) = str_eq provider "env" && not (str_eq reference "")
  is_env _ _ = false

  unfoldable pub resolve_token : Integration → String
  unfolding is_env
  resolve_token t =
      if is_env t.secret_provider t.secret_reference
      then or_empty (getenv (or_empty t.secret_reference))
      else or_empty t.api_token_unsafe

  unfoldable pub credentials_of : Row → ProjectCredentials
  unfolding resolve_token
  credentials_of (p, t) = record {
    project_key = p.external_key;
    project_name = p.name;
    integration_id = or_empty p.tool_integration_id;
    instance_url = or_empty t.instance_url;
    user_email = or_empty t.user_email;
    api_token = resolve_token t;
  }

  -- The loop over the rows, which passes over a row without a token.
  unfoldable pub load_rows : List Row → List ProjectCredentials
  unfolding resolve_token credentials_of
  load_rows [] = []
  load_rows (row ∷ rows) =
      let rest = load_rows rows in
      if str_eq (resolve_token (row.1)) "" then rest else credentials_of row ∷ rest

  -- The database is the two tables, or none where it cannot be reached.
  unfoldable pub get_active_projects_from_db :
      Option (List Project × List Integration) → List ProjectCredentials
  unfolding load_rows order_rows join_rows
  get_active_projects_from_db none = []
  get_active_projects_from_db (some (projects, integrations)) =
      load_rows (order_rows (join_rows projects integrations))

  unfoldable pub first_of : String → List ProjectCredentials → Option ProjectCredentials
  first_of key [] = none
  first_of key (p ∷ ps) =
      let rest = first_of key ps in if str_eq p.project_key key then some p else rest

  unfoldable pub get_project_credentials :
      Option (List Project × List Integration) → String → Option ProjectCredentials
  unfolding get_active_projects_from_db first_of
  get_project_credentials db key = first_of key (get_active_projects_from_db db)
