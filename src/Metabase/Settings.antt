-- ===== src/Metabase/Settings.antt =====
-- The settings that the provider of bi/providers/metabase/provider.py reads from the environment.
use process_metrics_platform.Common.{String, Bool, Option, none, some, str_eq, [], ◌∷◌}
use process_metrics_platform.Documents.{
  value_error, Result, ok, ◌>>=◌, ℤ, Json, boolean, number, text, dict,
}
use process_metrics_platform.Documents.Access.{or_raise, Conversions}
use process_metrics_platform.Metabase.Text.{lowered_text}

pub record Settings : Type 0 where
  pub base_url : String
  pub api_key : Option String
  pub admin_email : String
  pub admin_password : String
  pub site_name : String
  pub target_db_name : String
  pub target_db_engine : String
  pub target_db_schema : String
  pub target_db_ssl : Bool
  pub pg_host : String
  pub pg_port : ℤ
  pub pg_db : String
  pub pg_user : String
  pub pg_password : String

-- os.getenv(key, default)
abbrev or_else : String → Option String → String
or_else default none = default
or_else default (some value) = value

module _ (c : Conversions) (getenv : String → Option String) where
  abbrev pub getenv_or : String → String → String
  getenv_or key default = or_else default (getenv key)

  -- int(os.getenv(key, default))
  unfoldable pub getenv_int : String → String → Result ℤ
  unfolding or_raise
  getenv_int key default = or_raise value_error (c.parse_int (getenv_or key default))

  -- MetabaseProvider()
  unfoldable pub new_provider : Result Settings
  unfolding getenv_int lowered_text
  new_provider = getenv_int "POSTGRES_PORT" "5432" >>= λ port. ok record {
    base_url = getenv_or "METABASE_URL" "http://metabase:3000";
    api_key = getenv "METABASE_API_KEY";
    admin_email = getenv_or "MB_ADMIN_EMAIL" "admin@example.com";
    admin_password = getenv_or "MB_ADMIN_PASSWORD" "StrongPassword123!";
    site_name = getenv_or "MB_SITE_NAME" "Process Metrics Platform";
    target_db_name = getenv_or "BI_DATABASE_NAME" "Process Metrics DB";
    target_db_engine = getenv_or "BI_DATABASE_ENGINE" "postgres";
    target_db_schema = getenv_or "BI_DATABASE_SCHEMA" "metrics";
    target_db_ssl = str_eq (lowered_text (getenv_or "BI_DATABASE_SSL" "false")) "true";
    pg_host = getenv_or "POSTGRES_HOST" "postgres";
    pg_port = port;
    pg_db = getenv_or "POSTGRES_DB" "process_metrics";
    pg_user = getenv_or "POSTGRES_USER" "postgres";
    pg_password = getenv_or "POSTGRES_PASSWORD" "postgres";
  }

-- The connection of the target database, as the requests send it.
unfoldable pub details : Settings → Json
details s = dict (
    ("host", text s.pg_host)
    ∷ ("port", number s.pg_port)
    ∷ ("dbname", text s.pg_db)
    ∷ ("user", text s.pg_user)
    ∷ ("password", text s.pg_password)
    ∷ ("schema", text s.target_db_schema)
    ∷ ("ssl", boolean s.target_db_ssl)
    ∷ [])
