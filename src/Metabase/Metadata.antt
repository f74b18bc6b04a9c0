-- ===== src/Metabase/Metadata.antt =====
-- What Metabase knows of the fields of a database, in bi/providers/metabase/provider.py, and the field
-- paths that the cards of a pack need.
use Prim.Native.String.{◌++◌ as join}
use process_metrics_platform.Common.{String, List, [], ◌∷◌, str_eq, if◌then◌else◌, Dict, insert}
use process_metrics_platform.Documents.{
  Result, ok, ◌>>=◌, fold, ℤ, Json, null, text, object, Members, no_members, member, list, dict,
  member_of,
}
use process_metrics_platform.Documents.Access.{
  or_value, get, subscript, or_default, iterate, Conversions, int_of, str_of,
}
use process_metrics_platform.Metabase.Text.{strip_text}
use process_metrics_platform.Metabase.Pack.{File, Pack, files_of}

module _ (c : Conversions) where
  -- Both keys of a field, with and without the schema
  unfoldable pub add_field : Json → Json → Dict ℤ → Json → Result (Dict ℤ)
  unfolding subscript int_of str_of insert
  add_field schema table field_map field = do
    name ← subscript field "name"
    given ← subscript field "id"
    id ← int_of c given
    let short = join (str_of c table) (join "." (str_of c name))
    ok (insert short id (insert (join (str_of c schema) (join "." short)) id field_map))

  unfoldable pub add_table : Dict ℤ → Json → Result (Dict ℤ)
  unfolding get or_default iterate add_field fold
  add_table field_map table = do
    schema ← get table "schema" null
    name ← get table "name" (text "")
    given ← get table "fields" (list [])
    fields ← iterate given
    fold (add_field (or_default schema (text "public")) name) field_map fields

  unfoldable pub read_field_map : Json → Result (Dict ℤ)
  unfolding get iterate add_table fold
  read_field_map metadata = do
    given ← get metadata "tables" (list [])
    tables ← iterate given
    fold add_table [] tables

-- required.add(path)
unfoldable pub add_path : String → List String → List String
add_path path [] = path ∷ []
add_path path (p ∷ ps) = if str_eq p path then p ∷ ps else p ∷ add_path path ps

-- The texts among the values that are not blank, stripped.
unfoldable pub add_column : Json → List String → List String
unfolding strip_text add_path
add_column (text path) required =
    if str_eq (strip_text path) "" then required else add_path (strip_text path) required
add_column _ required = required

unfoldable pub add_columns : Members → List String → List String
unfolding add_column
add_columns no_members required = required
add_columns (member k v ms) required = add_columns ms (add_column v required)

-- The paths of a card: of its field_filters, where these are an object.
abbrev filters_of : Json → List String → List String
unfolding add_columns
filters_of (object filters) required = add_columns filters required
filters_of _ required = required

unfoldable pub card_paths : Json → List String → List String
unfolding filters_of or_value member_of
card_paths (object card) required =
    filters_of (or_value (dict []) (member_of "field_filters" card)) required
card_paths _ required = required

unfoldable pub collect_paths : List File → List String → Result (List String)
unfolding card_paths
collect_paths [] required = ok required
collect_paths (file ∷ files) required =
    file >>= λ card. collect_paths files (card_paths card required)

unfoldable pub collect_required_field_paths : Pack → Result (List String)
unfolding collect_paths files_of
collect_required_field_paths pack = collect_paths (files_of pack.cards) []
