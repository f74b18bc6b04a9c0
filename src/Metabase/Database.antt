-- ===== src/Metabase/Database.antt =====
-- The target database in bi/providers/metabase/provider.py: the login, the database itself, and the wait
-- for its fields.
use Prim.Native.String.{◌++◌ as join}
use process_metrics_platform.Common.{
  String, Bool, true, false, not, ◌&&◌, Option, none, some, List, [], ◌∷◌, str_eq, if◌then◌else◌,
  Dict, lookup,
}
use process_metrics_platform.Documents.{
  ℤ, Json, null, boolean, text, array, object, dict, elements, member_of,
}
use process_metrics_platform.Documents.Access.{
  get, subscript, truthy, decimal_of, Conversions, int_of,
}
use process_metrics_platform.Metabase.Client.{
  World, Action, pure, lift, attempt, ◌>>=◌, ◌>>◌, get_method, post, request, time, with_api_key,
  with_session,
}
use process_metrics_platform.Metabase.Polling.{wait_until, later, rounds}
use process_metrics_platform.Metabase.Settings.{Settings, details, getenv_int}
use process_metrics_platform.Metabase.Metadata.{read_field_map}

abbrev wrapped : Option Json → List Json
unfolding elements
wrapped (some (array js)) = elements js
wrapped _ = []

-- A list, or the list under "data"
unfoldable pub extract_list : Json → List Json
unfolding wrapped elements member_of
extract_list (array js) = elements js
extract_list (object ms) = wrapped (member_of "data" ms)
extract_list _ = []

abbrev is_named : String → Json → Bool
is_named name (text s) = str_eq s name
is_named name _ = false

unfoldable pub setup_payload : Settings → Json → Json
unfolding details
setup_payload s token = dict (
    ("token", token)
    ∷ (
      "user",
      dict (
          ("first_name", text "Admin")
          ∷ ("last_name", text "User")
          ∷ ("email", text s.admin_email)
          ∷ ("password", text s.admin_password)
          ∷ []),
    )
    ∷ ("prefs", dict (("site_name", text s.site_name) ∷ ("allow_tracking", boolean false) ∷ []))
    ∷ (
      "database",
      dict (
          ("engine", text s.target_db_engine)
          ∷ ("name", text s.target_db_name)
          ∷ ("details", details s)
          ∷ []),
    )
    ∷ [])

unfoldable pub database_payload : Settings → Json
unfolding details
database_payload s = dict (
    ("name", text s.target_db_name)
    ∷ ("engine", text s.target_db_engine)
    ∷ ("details", details s)
    ∷ ("is_full_sync", boolean true)
    ∷ [])

-- A key that is there and not empty
abbrev pub key_set : Option String → Bool
key_set none = false
key_set (some key) = not (str_eq key "")

unfoldable pub metadata_path : ℤ → String
unfolding decimal_of
metadata_path id = join "/api/database/" (join (decimal_of id) "/metadata?include_hidden=true")

module _ (w : World) where
  -- The setup of a new Metabase; a 403 says that it was set up in the meantime.
  unfoldable pub set_up : Settings → Json → Bool → Action Unit
  unfolding request setup_payload
  set_up s token true = do
    request w post "/api/setup" (some (setup_payload s token)) (200 ∷ 403 ∷ [])
    pure tt
  set_up s token false = pure tt

  unfoldable pub log_in : Settings → Action Unit
  unfolding request get subscript truthy set_up with_session
  log_in s = do
    props ← request w get_method "/api/session/properties" none (200 ∷ [])
    token ← lift (get props "setup-token" null)
    set_up s token (truthy token)
    session ←
        request w post "/api/session"
          (some
            (dict (("username", text s.admin_email) ∷ ("password", text s.admin_password) ∷ [])))
          (200 ∷ [])
    id ← lift (subscript session "id")
    with_session id

  abbrev with_key : Settings → Option String → Action Unit
  unfolding log_in with_api_key
  with_key s (some key) = if str_eq key "" then log_in s else with_api_key key
  with_key s none = log_in s

  unfoldable pub bootstrap_and_authenticate : Settings → Action Unit
  unfolding with_key
  bootstrap_and_authenticate s = with_key s s.api_key

  unfoldable pub sync_database : ℤ → Action Unit
  unfolding request decimal_of
  sync_database id = do
    request w post (join "/api/database/" (join (decimal_of id) "/sync_schema")) none
        (200 ∷ 202 ∷ [])
    pure tt

  module _ (c : Conversions) where
    -- int(db["id"]), which is synchronised
    unfoldable pub use_database : Json → Action ℤ
    unfolding subscript int_of sync_database
    use_database db = do
      given ← lift (subscript db "id")
      id ← lift (int_of c given)
      sync_database id
      pure id

    unfoldable pub create_database : Settings → Action ℤ
    unfolding request database_payload use_database
    create_database s = do
      created ← request w post "/api/database" (some (database_payload s)) (200 ∷ [])
      use_database created

    abbrev use_if : Bool → Json → Action ℤ → Action ℤ
    unfolding use_database
    use_if true db later = use_database db
    use_if false db later = later

    -- The first database of the name, or a new one.
    unfoldable pub find_database : Settings → List Json → Action ℤ
    unfolding get use_if create_database
    find_database s [] = create_database s
    find_database s (db ∷ dbs) = do
      name ← lift (get db "name" null)
      use_if (is_named s.target_db_name name) db (find_database s dbs)

    unfoldable pub ensure_database : Settings → Action ℤ
    unfolding request extract_list find_database
    ensure_database s = do
      found ← request w get_method "/api/database" none (200 ∷ [])
      find_database s (extract_list found)

    -- An exception of the request gives an empty map; one of the reading is raised.
    unfoldable pub fetched : Option Json → Action (Dict ℤ)
    unfolding read_field_map
    fetched none = pure []
    fetched (some metadata) = lift (read_field_map c metadata)

    unfoldable pub get_field_id_map : ℤ → Action (Dict ℤ)
    unfolding request fetched metadata_path
    get_field_id_map id = do
      metadata ←
          attempt
            (do
              found ←
                  request w get_method
                    (join "/api/database/" (join (decimal_of id) "/metadata?include_hidden=true"))
                    none (200 ∷ [])
              pure (some found))
            (λ _. pure none)
      fetched metadata

-- path in field_map, for every path
unfoldable pub covers : Dict ℤ → List String → Bool
unfolding lookup
covers field_map [] = true
covers field_map (path ∷ paths) =
    (elim (lookup path field_map) [ none ↦ false | some _ ↦ true ]) && covers field_map paths

module _ (w : World) (c : Conversions) (getenv : String → Option String) where
  unfoldable pub fields_ready : ℤ → List String → Action Bool
  unfolding get_field_id_map covers
  fields_ready id paths = do field_map ← get_field_id_map w c id; pure (covers field_map paths)

  unfoldable pub poll_fields : ℤ → List String → ℤ → ℤ → Action (Option Unit)
  unfolding time later rounds wait_until fields_ready
  poll_fields id paths timeout pause = do
    now ← time w
    wait_until w (fields_ready id paths) pause (rounds timeout) (later now timeout)

  unfoldable pub wait_for_required_fields : ℤ → List String → Action (Option Unit)
  unfolding getenv_int poll_fields
  wait_for_required_fields id [] = pure (some tt)
  wait_for_required_fields id (path ∷ paths) = do
    timeout ← lift (getenv_int c getenv "BI_FIELD_SYNC_TIMEOUT_SECONDS" "300")
    pause ← lift (getenv_int c getenv "BI_FIELD_SYNC_POLL_SECONDS" "5")
    poll_fields id (path ∷ paths) timeout pause
