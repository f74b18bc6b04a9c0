-- ===== src/Partitions/Granted.antt =====
-- Whose credentials pipelines/utils/db_config.py gives out.
use process_metrics_platform.Common.{◌≡◌, String, true, false, Option, some, List, In, str_eq}
use process_metrics_platform.Partitions.Credentials.{
  Project, Integration, Row, joins, resolve_token,
}

-- The project belongs to the integration, and both are active.
abbrev pub Belongs : Project → Integration → Type 0
Belongs p t = (p.tool_integration_id ≡ some t.id) × (p.is_active ≡ true) × (t.is_active ≡ true)

-- The row is that of a project and of an integration of the tables, which are active and belong together.
abbrev IsJoined : List Project → List Integration → Row → Type 0
IsJoined ps ts (p, t) = In p ps × In t ts × (joins p t ≡ true)

module _ (getenv : String → Option String) where
  -- The project and the integration are in the tables, belong together and are active, the project has the key, and the
  -- integration has a token.
  abbrev pub Grants : List Project → List Integration → String → Project → Integration → Type 0
  Grants ps ts key p t =
      In p ps
      × In t ts
      × Belongs p t
      × (p.external_key ≡ key)
      × (str_eq (resolve_token getenv t) "" ≡ false)
