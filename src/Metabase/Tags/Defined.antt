-- ===== src/Metabase/Tags/Defined.antt =====
-- The definitions of the tags of a query, in bi/providers/metabase/provider.py.
use process_metrics_platform.Common.{
  ◌≡◌, ◌≢◌, refl, sym, ap, ◌∙◌, subst, ◌↔◌, ◌⊎◌, inl, inr, String, Bool, true, false, Option, none,
  some, List, [], ◌∷◌, ◌++◌, map, append-nil, append_assoc, All, In, AreDistinct, arith, Dict,
  insert, str_eq, eq_iff, Bool-cases,
}
use process_metrics_platform.Documents.{
  Result, ok, raised, ◌>>=◌, >>=-ok, ℤ, Json, null, number, text, object, Members, dict, list,
  member_of,
}
use process_metrics_platform.Documents.Access.{
  or_value, subscript, get, or_default, Conversions, str_of,
}
use process_metrics_platform.Metabase.Tags.{
  FilterConfig, find_field_id, contains, config_of, filter_config, filter_fields, dimension,
  filter_tag, plain_tag, define_tag, add_template_tags, build_template_tags, tags_of,
  build_native_query_payload,
}
use process_metrics_platform.Metabase.Tags.Scan.{findall}
use process_metrics_platform.Metabase.Tags.Sorted.{sorted_set}
use process_metrics_platform.Metabase.Tags.Order.{
  IsSorted, IsSorted-AreDistinct, sorted_set-IsSorted, sorted_set-In,
}

abbrev pub tag_names : Dict Json → List String
tag_names d = map (λ (tag, _). tag) d

-- The value at a key of an object
abbrev pub field_of : String → Json → Option Json
unfolding member_of
field_of key (object ms) = member_of key ms
field_of key _ = none

abbrev dict_at : Result (Dict Json) → Dict Json
dict_at (ok d) = d
dict_at (raised e) = []

abbrev value_at : Result Json → Json
value_at (ok j) = j
value_at (raised e) = null

-- The definition is that of a field filter on the field that Metabase knows by the tag's column.
abbrev pub IsFieldFilter : Json → Dict ℤ → String → Json → Type 0
IsFieldFilter field_filters field_ids tag tag_def =
    (column : Json) × (id : ℤ) × (subscript field_filters tag ≡ ok column)
    × (find_field_id field_ids column ≡ ok (some id))
    × (field_of "type" tag_def ≡ some (text "dimension"))
    × (field_of "dimension" tag_def ≡ some (list (text "field" ∷ number id ∷ null ∷ [])))

tag_names-insert :
    (tag : String) (tag_def : Json) (d : Dict Json)
    → All (λ name. name ≢ tag) (tag_names d)
    → tag_names (insert tag tag_def d) ≡ tag_names d ++ (tag ∷ [])
unfolding insert
tag_names-insert tag tag_def [] ne = refl
tag_names-insert tag tag_def ((name, old) ∷ d) (first, ne) =
    ground (arith, first, eq_iff name tag, tag_names-insert tag tag_def d ne)

append-All :
    (t : String) (names : List String) (tag : String)
    → All (λ name. name ≢ t) names
    → tag ≢ t
    → All (λ name. name ≢ t) (names ++ (tag ∷ []))
append-All t [] tag all ne = (ne, tt)
append-All t (n ∷ names) tag (first, all) ne = (first, append-All t names tag all ne)

-- A new tag is not among the later ones.
fresh-after :
    (tag : String) (names tags : List String)
    → All (λ t. t ≢ tag) tags
    → All (λ t. All (λ name. name ≢ t) names) tags
    → All (λ t. All (λ name. name ≢ t) (names ++ (tag ∷ []))) tags
fresh-after tag names [] fresh new = tt
fresh-after tag names (t ∷ tags) (ne, fresh) (first, new) =
    (append-All t names tag first (λ e. ne (sym e)), fresh-after tag names tags fresh new)

module _ (md5 : String → String) (configured field_filters : Json) (field_ids : Dict ℤ) where
  -- The definition of a tag: a field filter where field_filters has the tag, and a variable elsewhere.
  abbrev pub IsDefinition : String × Json → Type 0
  IsDefinition (tag, tag_def) =
      ((contains tag field_filters ≡ ok true) × IsFieldFilter field_filters field_ids tag tag_def)
      ⊎ ((contains tag field_filters ≡ ok false)
          × (plain_tag md5 tag (config_of configured tag) ≡ ok tag_def))

  dimension-IsFieldFilter :
      (tag : String) (column tag_def : Json) (config : FilterConfig) (found : Option ℤ)
      → subscript field_filters tag ≡ ok column
      → find_field_id field_ids column ≡ ok found
      → dimension md5 (filter_fields md5 tag config) found ≡ ok tag_def
      → IsFieldFilter field_filters field_ids tag tag_def
  unfolding filter_fields field_of
  dimension-IsFieldFilter tag column tag_def config none e f h = absurd (ground (arith, h))
  dimension-IsFieldFilter tag column tag_def config (some id) e f h =
      let same = sym (ap value_at h) in
      (column, id, e, f, ap (field_of "type") same, ap (field_of "dimension") same)

  filter_tag-IsFieldFilter :
      (tag : String) (cfg column tag_def : Json)
      → subscript field_filters tag ≡ ok column
      → filter_tag md5 field_ids tag cfg column ≡ ok tag_def
      → IsFieldFilter field_filters field_ids tag tag_def
  unfolding filter_tag filter_fields
  filter_tag-IsFieldFilter tag cfg column tag_def e h =
      let (found, f, rest) =
        >>=-ok (find_field_id field_ids column)
          (λ field_id. filter_config tag cfg >>= λ config.
            dimension md5 (filter_fields md5 tag config) field_id)
          tag_def h in
      let (config, g, last) =
        >>=-ok (filter_config tag cfg)
          (λ config. dimension md5 (filter_fields md5 tag config) found) tag_def rest in
      dimension-IsFieldFilter tag column tag_def config found e f last

  define_tag-IsDefinition :
      (tag : String) (is_filter : Bool) (tag_def : Json)
      → contains tag field_filters ≡ ok is_filter
      → define_tag md5 configured field_filters field_ids tag is_filter ≡ ok tag_def
      → IsDefinition (tag, tag_def)
  unfolding define_tag
  define_tag-IsDefinition tag false tag_def e h = inr (e, h)
  define_tag-IsDefinition tag true tag_def e h =
      let (column, f, rest) =
        >>=-ok (subscript field_filters tag)
          (filter_tag md5 field_ids tag (config_of configured tag)) tag_def h in
      inl (e, filter_tag-IsFieldFilter tag (config_of configured tag) column tag_def f rest)

  insert-All :
      (tag : String) (tag_def : Json) (d : Dict Json)
      → IsDefinition (tag, tag_def)
      → All IsDefinition d
      → All IsDefinition (insert tag tag_def d)
  unfolding insert
  insert-All tag tag_def [] is all = (is, tt)
  insert-All tag tag_def ((name, old) ∷ d) is (first, all) = elim (Bool-cases (str_eq name tag)) [
    | inl e ↦ rw e (subst (λ n. IsDefinition (n, tag_def)) (sym ((eq_iff name tag).0 e)) is, all)
    | inr e ↦ rw e (first, insert-All tag tag_def d is all)
  ]

  add_template_tags-Defines :
      (tags : List String) (defined out : Dict Json)
      → AreDistinct tags
      → All (λ tag. All (λ name. name ≢ tag) (tag_names defined)) tags
      → All IsDefinition defined
      → add_template_tags md5 configured field_filters field_ids tags defined ≡ ok out
      → (tag_names out ≡ tag_names defined ++ tags) × All IsDefinition out
  unfolding add_template_tags
  add_template_tags-Defines [] defined out d new all h =
      let same : defined ≡ out = ap dict_at h in
      (
        sym (ap (λ d. tag_names d) same) ∙ sym (append-nil (tag_names defined)),
        subst (All IsDefinition) same all,
      )
  add_template_tags-Defines (tag ∷ tags) defined out (fresh, d) (ne, new) all h =
      let (is_filter, e, rest) =
        >>=-ok (contains tag field_filters)
          (λ is_filter.
            define_tag md5 configured field_filters field_ids tag is_filter >>= λ tag_def.
            add_template_tags md5 configured field_filters field_ids tags
              (insert tag tag_def defined))
          out h in
      let (tag_def, f, last) =
        >>=-ok (define_tag md5 configured field_filters field_ids tag is_filter)
          (λ tag_def.
            add_template_tags md5 configured field_filters field_ids tags
              (insert tag tag_def defined))
          out rest in
      let is = define_tag-IsDefinition tag is_filter tag_def e f in
      let names = tag_names-insert tag tag_def defined ne in
      let (g, out_all) =
        add_template_tags-Defines tags (insert tag tag_def defined) out d
          (subst (λ ns. All (λ t. All (λ name. name ≢ t) ns) tags) (sym names)
            (fresh-after tag (tag_names defined) tags fresh new))
          (insert-All tag tag_def defined is all) last in
      (g ∙ ap (λ ns. ns ++ tags) names ∙ append_assoc (tag_names defined) (tag ∷ []) tags, out_all)

abbrev pub template_tags_of : Members → Json
unfolding or_value
template_tags_of card = or_value (dict []) (member_of "template_tags" card)

abbrev pub field_filters_of : Members → Json
unfolding or_value or_default
field_filters_of card = or_default (or_value (dict []) (member_of "field_filters" card)) (dict [])

none_before : (tags : List String) → All (λ t. All (λ name. name ≢ t) []) tags
none_before [] = tt
none_before (t ∷ tags) = (tt, none_before tags)

tags_of-Defines :
    (md5 : String → String) (card : Members) (field_ids : Dict ℤ) (tags : List String)
    (out : Dict Json)
    → AreDistinct tags
    → tags_of md5 (object card) field_ids tags ≡ ok out
    → (tag_names out ≡ tags)
      × All (IsDefinition md5 (template_tags_of card) (field_filters_of card) field_ids) out
unfolding tags_of build_template_tags get
tags_of-Defines md5 card field_ids [] out d h =
    subst
      (λ out.
        (tag_names out ≡ [])
        × All (IsDefinition md5 (template_tags_of card) (field_filters_of card) field_ids) out)
      (ap dict_at h) (refl, tt)
tags_of-Defines md5 card field_ids (tag ∷ tags) out d h =
    add_template_tags-Defines md5 (template_tags_of card) (field_filters_of card) field_ids
      (tag ∷ tags) [] out d (none_before (tag ∷ tags)) tt h

-- What the payload of a card's query says of its tags
abbrev pub AreDefined : (String → String) → Members → Dict ℤ → String × Dict Json → Type 0
AreDefined md5 card field_ids (query, tags) =
    IsSorted (tag_names tags)
    × AreDistinct (tag_names tags)
    × ((tag : String) → In tag (tag_names tags) ↔ In tag (findall query))
    × All (IsDefinition md5 (template_tags_of card) (field_filters_of card) field_ids) tags

abbrev payload_at : Result (String × Dict Json) → String × Dict Json
payload_at (ok payload) = payload
payload_at (raised e) = ("", [])

-- In the query of a card, every tag that the pattern finds is defined once, in the order of their code points,
-- and nothing else is: a tag of field_filters as a field filter on the field whose id Metabase
-- has for the tag's column, with or without the schema, and every other tag as the variable that plain_tag makes of
-- its entry in template_tags.
pub build_native_query_payload-Defines :
    (md5 : String → String) (c : Conversions) (card : Members) (field_ids : Dict ℤ) (query : String)
    (tags : Dict Json)
    → build_native_query_payload md5 c (object card) field_ids ≡ ok (query, tags)
    → AreDefined md5 card field_ids (query, tags)
unfolding build_native_query_payload
build_native_query_payload-Defines md5 c card field_ids query tags h =
    let (q, e, rest) =
      >>=-ok (subscript (object card) "query")
        (λ q. tags_of md5 (object card) field_ids (sorted_set (findall (str_of c q))) >>= λ ts.
          ok (str_of c q, ts))
        (query, tags) h in
    let (ts, f, last) =
      >>=-ok (tags_of md5 (object card) field_ids (sorted_set (findall (str_of c q))))
        (λ ts. ok (str_of c q, ts)) (query, tags) rest in
    let found = findall (str_of c q) in
    let sorted = sorted_set-IsSorted found in
    let distinct = IsSorted-AreDistinct (sorted_set found) sorted in
    let (names, all) = tags_of-Defines md5 card field_ids (sorted_set found) ts distinct f in
    subst (AreDefined md5 card field_ids) (ap payload_at last) (
      subst IsSorted (sym names) sorted,
      subst (AreDistinct {A = String}) (sym names) distinct,
      (λ t. subst (λ ns. In t ns ↔ In t found) (sym names) (sorted_set-In t found)),
      all,
    )
