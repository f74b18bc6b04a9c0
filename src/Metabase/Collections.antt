-- ===== src/Metabase/Collections.antt =====
-- The collections of a pack, in bi/providers/metabase/provider.py.
use Prim.Native.String.{◌++◌ as join}
use process_metrics_platform.Common.{String, Option, none, some, [], ◌∷◌}
use process_metrics_platform.Documents.{ℤ, Json, null, number, text, dict}
use process_metrics_platform.Documents.Access.{
  get, subscript, or_default, Conversions, int_of, str_of,
}
use process_metrics_platform.Documents.Keys.{text_key, key_of, Keyed, find, assign}
use process_metrics_platform.Metabase.Client.{
  World, Action, pure, lift, loop, ◌>>=◌, get_method, post, request,
}
use process_metrics_platform.Metabase.Pack.{File, Pack, load_json_list}
use process_metrics_platform.Metabase.Database.{extract_list}

-- The ids of the pack's collections by their keys; the root has none.
abbrev pub CollectionIds : Type 0
CollectionIds = Keyed (Option ℤ)

abbrev pub id_or_null : Option ℤ → Json
id_or_null none = null
id_or_null (some id) = number id

abbrev pub id_of : Option (Option ℤ) → Json
id_of none = null
id_of (some id) = id_or_null id

-- collection_ids.get(key)
unfoldable pub collection_of : Json → CollectionIds → Action Json
unfolding key_of find
collection_of key ids = do k ← lift (key_of key); pure (id_of (find k ids))

abbrev pub root_only : CollectionIds
root_only = (text_key "root", none) ∷ []

-- The value at a key of `found`, where None counts as missing
abbrev present : Option Json → Option Json
present (some null) = none
present o = o

module _ (c : Conversions) where
  -- spec.get("description") or f"{prefix} for {name}"
  unfoldable pub description_of : String → Json → Json → Action Json
  unfolding get or_default str_of
  description_of prefix spec name = do
    given ← lift (get spec "description" null)
    pure (or_default given (text (join prefix (str_of c name))))

  -- {c["name"]: c["id"] for c in ...}
  unfoldable pub add_collection : Keyed Json → Json → Action (Keyed Json)
  unfolding subscript key_of assign
  add_collection found collection = do
    name ← lift (subscript collection "name")
    id ← lift (subscript collection "id")
    k ← lift (key_of name)
    pure (assign k id found)

  module _ (w : World) where
    unfoldable pub create_collection : Json → Json → Json → Action Json
    unfolding description_of request subscript
    create_collection spec name parent_id = do
      description ← description_of "Collection for " spec name
      created ←
          request w post "/api/collection"
            (some (
              dict (("name", name) ∷ ("description", description) ∷ ("parent_id", parent_id) ∷ [])))
            (200 ∷ [])
      lift (subscript created "id")

    abbrev existing_or_new : Json → Json → Json → Option Json → Action Json
    unfolding create_collection
    existing_or_new spec name parent_id (some id) = pure id
    existing_or_new spec name parent_id none = create_collection spec name parent_id

    -- One round of the loop over the specs
    unfoldable pub ensure_collection : Keyed Json → CollectionIds → Json → Action CollectionIds
    unfolding subscript get collection_of key_of find assign int_of existing_or_new
    ensure_collection found ids spec = do
      key ← lift (subscript spec "key")
      name ← lift (subscript spec "name")
      parent_key ← lift (get spec "parent" (text "root"))
      parent_id ← collection_of parent_key ids
      n ← lift (key_of name)
      given ← existing_or_new spec name parent_id (present (find n found))
      id ← lift (int_of c given)
      k ← lift (key_of key)
      pure (assign k (some id) ids)

    unfoldable pub ensure_specs : Keyed Json → Option File → Action CollectionIds
    unfolding load_json_list loop ensure_collection
    ensure_specs found none = pure root_only
    ensure_specs found (some file) = do
      specs ← lift (load_json_list file)
      loop (ensure_collection found) root_only specs

    unfoldable pub ensure_collections : Pack → Action CollectionIds
    unfolding request extract_list loop add_collection ensure_specs
    ensure_collections pack = do
      listed ← request w get_method "/api/collection" none (200 ∷ [])
      found ← loop add_collection [] (extract_list listed)
      ensure_specs found pack.collections
