-- ===== src/Metabase/Cards.antt =====
-- The cards of a pack, in bi/providers/metabase/provider.py.
use Prim.Native.String.{◌++◌ as join}
use process_metrics_platform.Common.{
  String, Option, none, some, List, [], ◌∷◌, Dict, str_eq, if◌then◌else◌,
}
use process_metrics_platform.Documents.{
  attribute_error, Result, ok, raised, ℤ, Json, number, text, object, Members, no_members, member,
  dict,
}
use process_metrics_platform.Documents.Access.{get, subscript, decimal_of, Conversions, int_of}
use process_metrics_platform.Documents.Keys.{key_of, Keyed, find, assign}
use process_metrics_platform.Metabase.Client.{
  World, Action, pure, lift, loop, ◌>>=◌, ◌>>◌, get_method, post, put, request,
}
use process_metrics_platform.Metabase.Pack.{File, Pack, files_of, load_json_object}
use process_metrics_platform.Metabase.Database.{extract_list, get_field_id_map}
use process_metrics_platform.Metabase.Tags.{
  build_native_query_payload, native_payload, field_filter_tags,
}
use process_metrics_platform.Metabase.Collections.{CollectionIds, collection_of, description_of}

-- What the cards are made of: their ids and the tags that are field filters, by the keys of the cards.
pub record Cards : Type 0 where
  pub card_ids : Keyed ℤ
  pub field_tags : Keyed (List String)

unfoldable pub without_column_settings : Members → Members
without_column_settings no_members = no_members
without_column_settings (member k v ms) =
    let rest = without_column_settings ms in
    if str_eq k "column_settings" then rest else member k v rest

unfoldable pub safe_viz_settings : Json → Result Json
unfolding without_column_settings
safe_viz_settings (object ms) = ok (object (without_column_settings ms))
safe_viz_settings _ = raised attribute_error

-- {card["name"]: card for card in existing_cards}
unfoldable pub add_card : Keyed Json → Json → Action (Keyed Json)
unfolding subscript key_of assign
add_card found card = do
  name ← lift (subscript card "name")
  k ← lift (key_of name)
  pure (assign k card found)

unfoldable pub card_payload : Json → Json → Json → Json → ℤ → Json → Json → Json
card_payload name description display collection_id database_id native viz = dict (
    ("name", name)
    ∷ ("description", description)
    ∷ ("display", display)
    ∷ ("collection_id", collection_id)
    ∷ (
      "dataset_query",
      dict (("database", number database_id) ∷ ("type", text "native") ∷ ("native", native) ∷ []),
    )
    ∷ ("visualization_settings", viz)
    ∷ [])

module _ (md5 : String → String) (c : Conversions) (w : World) where
  -- A card of the name is updated, or a new one is created.
  unfoldable pub save_card : Json → Option Json → Action ℤ
  unfolding subscript int_of decimal_of request
  save_card payload (some card) = do
    given ← lift (subscript card "id")
    id ← lift (int_of c given)
    request w put (join "/api/card/" (decimal_of id)) (some payload) (200 ∷ [])
    pure id
  save_card payload none = do
    created ← request w post "/api/card" (some payload) (200 ∷ [])
    given ← lift (subscript created "id")
    lift (int_of c given)

  -- The payload of the card, and the tags of its field filters, which are stored under its key.
  unfoldable pub prepare_card :
      ℤ → CollectionIds → Dict ℤ → Json → Json → Json → Action (Json × List String)
  unfolding get collection_of build_native_query_payload native_payload field_filter_tags key_of
      description_of safe_viz_settings card_payload
  prepare_card database_id collections field_ids spec name card_key = do
    collection_key ← lift (get spec "collection" (text "root"))
    collection_id ← collection_of collection_key collections
    query ← lift (build_native_query_payload md5 c spec field_ids)
    tags ← lift (field_filter_tags (query.1))
    lift (key_of card_key)
    description ← description_of c "Metrics for " spec name
    display ← lift (get spec "display" (text "table"))
    viz ← lift (get spec "visualization_settings" (dict []))
    safe ← lift (safe_viz_settings viz)
    pure (
      card_payload name description display collection_id database_id (native_payload query) safe,
      tags,
    )

  -- Both entries of the card; the one of its tags was made before the request.
  unfoldable pub store_card : Cards → Json → List String → ℤ → Action Cards
  unfolding key_of assign
  store_card cards card_key tags id = do
    k ← lift (key_of card_key)
    pure record {
      card_ids = assign k id cards.card_ids;
      field_tags = assign k tags cards.field_tags;
    }

  unfoldable pub save_and_store :
      Keyed Json → Cards → Json → Json → Json × List String → Action Cards
  unfolding key_of find save_card store_card
  save_and_store found cards name card_key (payload, tags) = do
    n ← lift (key_of name)
    id ← save_card payload (find n found)
    store_card cards card_key tags id

  unfoldable pub upsert_named :
      ℤ → CollectionIds → Keyed Json → Dict ℤ → Cards → Json → Json → Json → Action Cards
  unfolding prepare_card save_and_store
  upsert_named database_id collections found field_ids cards spec name card_key =
      prepare_card database_id collections field_ids spec name card_key
      >>= save_and_store found cards name card_key

  unfoldable pub upsert_spec : ℤ → CollectionIds → Keyed Json → Dict ℤ → Cards → Json → Action Cards
  unfolding subscript upsert_named
  upsert_spec database_id collections found field_ids cards spec = do
    name ← lift (subscript spec "name")
    card_key ← lift (subscript spec "key")
    upsert_named database_id collections found field_ids cards spec name card_key

  -- One round of the loop over the files
  unfoldable pub upsert_card : ℤ → CollectionIds → Keyed Json → Dict ℤ → Cards → File → Action Cards
  unfolding load_json_object upsert_spec
  upsert_card database_id collections found field_ids cards file = do
    members ← lift (load_json_object file)
    upsert_spec database_id collections found field_ids cards (object members)

  unfoldable pub upsert_files : ℤ → CollectionIds → List File → Action Cards
  unfolding request extract_list loop add_card get_field_id_map upsert_card
  upsert_files database_id collections [] = pure record { card_ids = []; field_tags = [] }
  upsert_files database_id collections (file ∷ files) = do
    listed ← request w get_method "/api/card" none (200 ∷ [])
    found ← loop add_card [] (extract_list listed)
    field_ids ← get_field_id_map w c database_id
    loop (upsert_card database_id collections found field_ids)
        (record { card_ids = []; field_tags = [] }) (file ∷ files)

  unfoldable pub upsert_cards : Pack → ℤ → CollectionIds → Action Cards
  unfolding upsert_files files_of
  upsert_cards pack database_id collections =
      upsert_files database_id collections (files_of pack.cards)
