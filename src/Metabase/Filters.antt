-- ===== src/Metabase/Filters.antt =====
-- The filters of a dashboard in bi/providers/metabase/provider.py: its parameters, and what they
-- set in the cards.
use process_metrics_platform.Common.{
  String, Bool, true, false, ◌||◌, List, [], ◌∷◌, str_eq, if◌then◌else◌,
}
use process_metrics_platform.Documents.{
  attribute_error, Result, ok, raised, ◌>>=◌, ℤ, Json, null, number, text, array, dict, list,
  elements,
}
use process_metrics_platform.Documents.Access.{
  get, subscript, truthy, Conversions, str_of, is_object,
}
use process_metrics_platform.Documents.Keys.{key_of}
use process_metrics_platform.Metabase.Text.{first_chars}

pub record Filter : Type 0 where
  pub id : String
  pub kind : Json
  pub name : Json
  pub slug : Json
  pub template_tag : Json
  pub default : Json

module _ (md5 : String → String) where
  -- A slug that is no text has no encode.
  unfoldable pub param_id : Json → Result String
  unfolding first_chars
  param_id (text slug) = ok (first_chars 8 (md5 slug))
  param_id _ = raised attribute_error

  module _ (c : Conversions) where
    -- item.get("slug") or str(item["id"])
    unfoldable pub slug_of : Json → Json → Result Json
    unfolding truthy subscript str_of
    slug_of spec slug =
        if truthy slug then ok slug else (subscript spec "id" >>= λ id. ok (text (str_of c id)))

    unfoldable pub normalize_filter : Json → Result Filter
    unfolding get subscript slug_of param_id
    normalize_filter spec = do
      given ← get spec "slug" null
      slug ← slug_of spec given
      parameter_id ← param_id slug
      kind ← subscript spec "type"
      name ← get spec "name" slug
      template_tag ← get spec "template_tag" slug
      default ← get spec "default" null
      ok record {
        id = parameter_id;
        kind = kind;
        name = name;
        slug = slug;
        template_tag = template_tag;
        default = default;
      }

    -- The elements that are no objects are passed over.
    abbrev normalize_one : Json → Result (List Filter) → Bool → Result (List Filter)
    unfolding normalize_filter
    normalize_one spec rest true = do
      filter ← normalize_filter spec
      filters ← rest
      ok (filter ∷ filters)
    normalize_one spec rest false = rest

    unfoldable pub normalize_all : List Json → Result (List Filter)
    unfolding normalize_one is_object
    normalize_all [] = ok []
    normalize_all (spec ∷ specs) = normalize_one spec (normalize_all specs) (is_object spec)

    -- raw = spec.get("filters", []), or none where it is no list
    unfoldable pub normalize_filters : Json → Result (List Filter)
    unfolding normalize_all elements
    normalize_filters (array specs) = normalize_all (elements specs)
    normalize_filters _ = ok []

abbrev pub is_null : Json → Bool
is_null null = true
is_null _ = false

unfoldable pub dashboard_parameter : Filter → Json
dashboard_parameter f = dict (
    ("id", text f.id)
    ∷ ("name", f.name)
    ∷ ("slug", f.slug)
    ∷ ("type", f.kind)
    ∷ (if is_null f.default then [] else ("default", f.default) ∷ []))

unfoldable pub build_dashboard_parameters : List Filter → List Json
unfolding dashboard_parameter
build_dashboard_parameters [] = []
build_dashboard_parameters (f ∷ fs) = dashboard_parameter f ∷ build_dashboard_parameters fs

unfoldable pub is_tag : String → List String → Bool
is_tag s [] = false
is_tag s (t ∷ ts) = str_eq t s || is_tag s ts

-- j in tags, for a set of texts: an unhashable value is a TypeError.
unfoldable pub in_tags : Json → List String → Result Bool
unfolding is_tag key_of
in_tags (text s) tags = ok (is_tag s tags)
in_tags j tags = key_of j >>= λ _. ok false

-- slug in set(filter_ids)
unfoldable pub all_hashable : List Json → Result {0} Unit
unfolding key_of
all_hashable [] = ok tt
all_hashable (j ∷ js) = key_of j >>= λ _. all_hashable js

unfoldable pub same_slug : Json → Json → Bool
same_slug (text s) (text t) = str_eq s t
same_slug _ _ = false

unfoldable pub has_slug : Json → List Json → Bool
unfolding same_slug
has_slug slug [] = false
has_slug slug (j ∷ js) = same_slug j slug || has_slug slug js

unfoldable pub with_slugs : List Json → List Filter → List Filter
unfolding has_slug
with_slugs ids [] = []
with_slugs ids (f ∷ fs) =
    let rest = with_slugs ids fs in if has_slug f.slug ids then f ∷ rest else rest

-- The filters that the layout item selects: those that it lists, or all.
unfoldable pub select_filters : Json → List Filter → Result (List Filter)
unfolding all_hashable with_slugs elements
select_filters (array ids) filters =
    all_hashable (elements ids) >>= λ _. ok (with_slugs (elements ids) filters)
select_filters _ filters = ok filters

unfoldable pub mapping : ℤ → Filter → Bool → Json
mapping card_id f is_field = dict (
    ("parameter_id", text f.id)
    ∷ ("card_id", number card_id)
    ∷ (
      "target",
      list (
          text (if is_field then "dimension" else "variable")
          ∷ list (text "template-tag" ∷ f.template_tag ∷ [])
          ∷ []),
    )
    ∷ [])

unfoldable pub build_mappings : ℤ → List String → List Filter → Result (List Json)
unfolding in_tags mapping
build_mappings card_id tags [] = ok []
build_mappings card_id tags (f ∷ fs) = do
  is_field ← in_tags f.template_tag tags
  rest ← build_mappings card_id tags fs
  ok (mapping card_id f is_field ∷ rest)

unfoldable pub build_filter_mappings : Json → ℤ → List Filter → List String → Result (List Json)
unfolding get select_filters build_mappings
build_filter_mappings layout_item card_id [] tags = ok []
build_filter_mappings layout_item card_id (f ∷ fs) tags = do
  filter_ids ← get layout_item "filter_ids" null
  selected ← select_filters filter_ids (f ∷ fs)
  build_mappings card_id tags selected
