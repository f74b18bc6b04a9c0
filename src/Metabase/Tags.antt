-- ===== src/Metabase/Tags.antt =====
-- The tags of a native query and their definitions, in bi/providers/metabase/provider.py.
pub mod Scan
pub mod Sorted
pub mod Order
pub mod Defined
use process_metrics_platform.Metabase.Tags.Scan.{findall}
use process_metrics_platform.Metabase.Tags.Sorted.{sorted_set}
use process_metrics_platform.Common.{
  String, Bool, true, false, not, ◌&&◌, ◌||◌, Option, none, some, List, [], ◌∷◌, ◌++◌, str_eq,
  if◌then◌else◌, Dict, lookup, insert,
}
use process_metrics_platform.Documents.{
  type_error, runtime_error, attribute_error, Result, ok, raised, ◌>>=◌, ℤ, pos, negsuc, Json, null,
  boolean, number, text, array, object, Members, dict, list, member_of,
}
use process_metrics_platform.Documents.Access.{
  or_raise, or_value, get, has, subscript, truthy, or_default, is_zero, iterate, Conversions,
  str_of,
}
use process_metrics_platform.Documents.Keys.{key_of}
use process_metrics_platform.Metabase.Text.{
  begins_with, ends_with, is_within, first_chars, titled, startswith, endswith, contains_text,
  after_dot,
}

-- A field id, or the next one where there is none or it is 0, which is false.
abbrev or_id : Option ℤ → Option ℤ → Option ℤ
unfolding is_zero
or_id none next = next
or_id (some z) next = if is_zero z then next else some z

-- field_id_map.get(path) or field_id_map.get(path.split(".", 1)[-1]), where the keys are texts.
unfoldable pub find_field_id : Dict ℤ → Json → Result (Option ℤ)
unfolding or_id lookup after_dot key_of
find_field_id field_ids (text path) =
    ok (or_id (lookup path field_ids) (lookup (after_dot path) field_ids))
find_field_id field_ids path = key_of path >>= λ _. raised attribute_error

-- tag in ["a", ...]
unfoldable pub is_among : String → List Json → Bool
is_among tag [] = false
is_among tag (text s ∷ js) = str_eq s tag || is_among tag js
is_among tag (j ∷ js) = is_among tag js

-- tag in j
unfoldable pub contains : String → Json → Result Bool
unfolding has is_among iterate
contains tag (object ms) = ok (has ms tag)
contains tag (text s) = ok (contains_text s tag)
contains tag j = iterate j >>= λ js. ok (is_among tag js)

-- configured.get(tag, {}) if isinstance(configured, dict) else {}
unfoldable pub config_of : Json → String → Json
unfolding or_value member_of
config_of (object ms) tag = or_value (dict []) (member_of tag ms)
config_of _ tag = dict []

unfoldable pub default_widget : String → String
unfolding begins_with is_within ends_with
default_widget tag =
    if endswith tag "_date" || startswith tag "date_" || contains_text tag "date"
    then "date/range"
    else "category"

unfoldable pub default_kind : String → String
unfolding begins_with is_within ends_with
default_kind tag =
    if startswith tag "date_"
      || endswith tag "_date"
      || (contains_text tag "date" && (endswith tag "_from" || endswith tag "_to"))
    then "date"
    else if endswith tag "_id"
    then "number"
    else "text"

pub record FilterConfig : Type 0 where
  pub widget : Json
  pub display : Json
  pub required : Bool

unfoldable pub filter_config : String → Json → Result FilterConfig
unfolding get default_widget titled truthy
filter_config tag cfg = do
  widget ← get cfg "widget_type" (text (default_widget tag))
  display ← get cfg "display_name" (text (titled false tag))
  required ← get cfg "required" (boolean false)
  ok record { widget = widget; display = display; required = truthy required }

-- `md5` is the hexadecimal digest.
module _ (md5 : String → String) where
  unfoldable pub tag_id : String → Json
  unfolding first_chars
  tag_id tag = text (first_chars 8 (md5 tag))

  abbrev pub dimension : List (String × Json) → Option ℤ → Result Json
  dimension tag_def none = raised runtime_error
  dimension tag_def (some id) =
      ok (dict (tag_def ++ (("dimension", list (text "field" ∷ number id ∷ null ∷ [])) ∷ [])))

  abbrev pub filter_fields : String → FilterConfig → List (String × Json)
  unfolding tag_id
  filter_fields tag config =
      ("id", tag_id tag)
      ∷ ("name", text tag)
      ∷ ("display-name", config.display)
      ∷ ("type", text "dimension")
      ∷ ("widget-type", config.widget)
      ∷ ("required", boolean config.required)
      ∷ []

  -- The tag is a field filter on the column.
  unfoldable pub filter_tag : Dict ℤ → String → Json → Json → Result Json
  unfolding find_field_id filter_config filter_fields
  filter_tag field_ids tag cfg column = do
    field_id ← find_field_id field_ids column
    config ← filter_config tag cfg
    dimension (filter_fields tag config) field_id

  abbrev kind_or_default : String → Json → Json
  unfolding default_kind
  kind_or_default tag null = text (default_kind tag)
  kind_or_default tag kind = kind

  -- The tag is a variable.
  unfoldable pub plain_tag : String → Json → Result Json
  unfolding kind_or_default get titled truthy tag_id
  plain_tag tag cfg = do
    kind ← get cfg "type" null
    display ← get cfg "display_name" (text (titled false tag))
    required ← get cfg "required" (boolean false)
    ok (
        dict (
          ("id", tag_id tag)
          ∷ ("name", text tag)
          ∷ ("display-name", display)
          ∷ ("type", kind_or_default tag kind)
          ∷ ("required", boolean (truthy required))
          ∷ []))

  unfoldable pub define_tag : Json → Json → Dict ℤ → String → Bool → Result Json
  unfolding filter_tag plain_tag config_of subscript
  define_tag configured field_filters field_ids tag true = do
    column ← subscript field_filters tag
    filter_tag field_ids tag (config_of configured tag) column
  define_tag configured field_filters field_ids tag false = plain_tag tag (config_of configured tag)

  -- The loop over the tags, with the definitions so far.
  unfoldable pub add_template_tags :
      Json → Json → Dict ℤ → List String → Dict Json → Result (Dict Json)
  unfolding contains define_tag insert
  add_template_tags configured field_filters field_ids [] defined = ok defined
  add_template_tags configured field_filters field_ids (tag ∷ tags) defined = do
    is_filter ← contains tag field_filters
    tag_def ← define_tag configured field_filters field_ids tag is_filter
    add_template_tags configured field_filters field_ids tags (insert tag tag_def defined)

  unfoldable pub build_template_tags : List String → Json → Json → Dict ℤ → Result (Dict Json)
  unfolding add_template_tags or_default
  build_template_tags tags configured field_filters field_ids =
      add_template_tags configured (or_default field_filters (dict [])) field_ids tags []

  -- The "template-tags" of a query with these tags; a query without tags has none.
  unfoldable pub tags_of : Json → Dict ℤ → List String → Result (Dict Json)
  unfolding build_template_tags get
  tags_of spec field_ids [] = ok []
  tags_of spec field_ids (tag ∷ tags) = do
    configured ← get spec "template_tags" (dict [])
    field_filters ← get spec "field_filters" (dict [])
    build_template_tags (tag ∷ tags) configured field_filters field_ids

  module _ (c : Conversions) where
    -- The query of the card and the definitions of its tags.
    unfoldable pub build_native_query_payload : Json → Dict ℤ → Result (String × Dict Json)
    unfolding subscript tags_of str_of findall sorted_set
    build_native_query_payload spec field_ids = do
      query ← subscript spec "query"
      tags ← tags_of spec field_ids (sorted_set (findall (str_of c query)))
      ok (str_of c query, tags)

-- The payload as it is sent: the tags only where there are some.
unfoldable pub native_payload : String × Dict Json → Json
native_payload (query, []) = dict (("query", text query) ∷ [])
native_payload (query, tag ∷ tags) =
    dict (("query", text query) ∷ ("template-tags", dict (tag ∷ tags)) ∷ [])

abbrev is_text : String → Json → Bool
is_text s (text t) = str_eq t s
is_text s _ = false

-- The tags whose definition has the type "dimension"
unfoldable pub field_filter_tags : Dict Json → Result (List String)
unfolding get
field_filter_tags [] = ok []
field_filter_tags ((tag, tag_def) ∷ tags) = do
  kind ← get tag_def "type" null
  rest ← field_filter_tags tags
  ok (if is_text "dimension" kind then tag ∷ rest else rest)
