-- ===== src/Metabase/Dashboards.antt =====
-- The dashboards of a pack, in bi/providers/metabase/provider.py.
use Prim.Native.String.{◌++◌ as join}
use process_metrics_platform.Common.{String, Option, none, some, List, [], ◌∷◌, if◌then◌else◌}
use process_metrics_platform.Documents.{
  Exn, runtime_error, ℤ, Json, null, number, text, object, dict, list,
}
use process_metrics_platform.Documents.Access.{
  get, subscript, truthy, iterate, decimal_of, Conversions, int_of, str_of,
}
use process_metrics_platform.Documents.Keys.{key_of, Keyed, find, assign}
use process_metrics_platform.Metabase.Client.{
  World, Action, pure, raise, lift, loop, attempt, ◌>>=◌, ◌>>◌, get_method, post, put, delete,
  request,
}
use process_metrics_platform.Metabase.Pack.{File, Pack, files_of, load_json_object}
use process_metrics_platform.Metabase.Database.{extract_list}
use process_metrics_platform.Metabase.Filters.{
  Filter, normalize_filters, build_dashboard_parameters,
}
use process_metrics_platform.Metabase.Collections.{CollectionIds, collection_of, description_of}
use process_metrics_platform.Metabase.Cards.{Cards}
use process_metrics_platform.Metabase.Layout.{card_id_of, place_cards, existing_by_card_id}

module _ (c : Conversions) (w : World) where
  -- {dash["name"]: int(dash["id"]) for dash in existing_dashboards}
  unfoldable pub add_dashboard : Keyed ℤ → Json → Action (Keyed ℤ)
  unfolding subscript int_of key_of assign
  add_dashboard found dash = do
    name ← lift (subscript dash "name")
    given ← lift (subscript dash "id")
    k ← lift (key_of name)
    id ← lift (int_of c given)
    pure (assign k id found)

  abbrev cards_path : Json → String → String
  cards_path id rest = join "/api/dashboard/" (join (str_of c id) (join "/cards" rest))

  abbrev delete_dashcard : Json → Json → Action Unit
  unfolding str_of request
  delete_dashcard dashboard_id null = pure tt
  delete_dashcard dashboard_id id = do
    request w delete (cards_path dashboard_id (join "/" (str_of c id))) none (200 ∷ 202 ∷ 204 ∷ [])
    pure tt

  -- The dashcards that have an id are deleted.
  unfoldable pub clear_dashcard : Json → Unit {0} → Json → Action Unit
  unfolding get delete_dashcard
  clear_dashcard dashboard_id _ d = do id ← lift (get d "id" null); delete_dashcard dashboard_id id

  unfoldable pub post_dashcard : Json → Cards → Unit {0} → Json → Action Unit
  unfolding subscript card_id_of str_of request
  post_dashcard dashboard_id cards _ item = do
    key ← lift (subscript item "card_key")
    card_id ← lift (card_id_of cards.card_ids key)
    row ← lift (subscript item "row")
    col ← lift (subscript item "col")
    size_x ← lift (subscript item "size_x")
    size_y ← lift (subscript item "size_y")
    request w post (cards_path dashboard_id "")
        (some (
          dict (
            ("cardId", number card_id)
            ∷ ("row", row)
            ∷ ("col", col)
            ∷ ("sizeX", size_x)
            ∷ ("sizeY", size_y)
            ∷ [])))
        (200 ∷ [])
    pure tt

  unfoldable pub apply_legacy_dashboard_layout : Json → Json → Json → Cards → Action Unit
  unfolding iterate loop clear_dashcard post_dashcard
  apply_legacy_dashboard_layout dashboard_id existing layout cards = do
    ds ← lift (iterate existing)
    loop (clear_dashcard dashboard_id) tt ds
    items ← lift (iterate layout)
    loop (post_dashcard dashboard_id cards) tt items

  abbrev create_dashboard : Json → Json → Json → Option ℤ → Action ℤ
  unfolding description_of request subscript int_of
  create_dashboard spec name collection_id (some id) = pure id
  create_dashboard spec name collection_id none = do
    description ← description_of c "Metrics for " spec name
    created ←
        request w post "/api/dashboard"
          (some (
            dict (
              ("name", name)
              ∷ ("description", description)
              ∷ ("collection_id", collection_id)
              ∷ [])))
          (200 ∷ [])
    given ← lift (subscript created "id")
    lift (int_of c given)

  -- except RuntimeError
  abbrev fall_back : Action Unit → Exn → Action Unit
  fall_back legacy runtime_error = legacy
  fall_back legacy e = raise e

  unfoldable pub update_payload : Json → Json → Json → Json → List Filter → List Json → Json
  unfolding truthy build_dashboard_parameters
  update_payload name description collection_id parameters filters dashcards = dict (
      ("name", name)
      ∷ ("description", description)
      ∷ ("collection_id", collection_id)
      ∷ (
        "parameters",
        if truthy parameters then parameters else list (build_dashboard_parameters filters),
      )
      ∷ ("dashcards", list dashcards)
      ∷ [])

  -- One round of the loop over the files
  module _ (md5 : String → String) where
    unfoldable pub upsert_dashboard :
        CollectionIds → Cards → Keyed ℤ → Unit {0} → File → Action Unit
    unfolding load_json_object subscript get collection_of normalize_filters key_of find
        create_dashboard request decimal_of existing_by_card_id iterate place_cards description_of
        update_payload apply_legacy_dashboard_layout
    upsert_dashboard collections cards found _ file = do
      members ← lift (load_json_object file)
      let spec = object members
      name ← lift (subscript spec "name")
      collection_key ← lift (get spec "collection" (text "root"))
      collection_id ← collection_of collection_key collections
      filter_specs ← lift (get spec "filters" (list []))
      filters ← lift (normalize_filters md5 c filter_specs)
      n ← lift (key_of name)
      id ← create_dashboard spec name collection_id (find n found)
      let path = join "/api/dashboard/" (decimal_of id)
      current ← request w get_method path none (200 ∷ [])
      dashcards ← lift (get current "dashcards" (list []))
      existing ← lift (existing_by_card_id c dashcards)
      layout ← lift (get spec "layout" (list []))
      items ← lift (iterate layout)
      placed ← lift (place_cards cards filters existing items)
      description ← description_of c "Metrics for " spec name
      parameters ← lift (get spec "parameters" (list []))
      attempt
          (do
            request w put path
                (some (
                  update_payload name description collection_id parameters filters
                    placed.dashcards))
                (200 ∷ [])
            pure tt)
          (fall_back (apply_legacy_dashboard_layout (number id) dashcards layout cards))

    unfoldable pub upsert_dashboard_files : CollectionIds → Cards → List File → Action Unit
    unfolding request extract_list loop add_dashboard upsert_dashboard
    upsert_dashboard_files collections cards [] = pure tt
    upsert_dashboard_files collections cards (file ∷ files) = do
      listed ← request w get_method "/api/dashboard" none (200 ∷ [])
      found ← loop add_dashboard [] (extract_list listed)
      loop (upsert_dashboard collections cards found) tt (file ∷ files)

    unfoldable pub upsert_dashboards : Pack → CollectionIds → Cards → Action Unit
    unfolding upsert_dashboard_files files_of
    upsert_dashboards pack collections cards =
        upsert_dashboard_files collections cards (files_of pack.dashboards)
