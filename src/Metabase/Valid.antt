-- ===== src/Metabase/Valid.antt =====
-- What the validation of bi/providers/metabase/provider.py accepts.
use process_metrics_platform.Common.{
  ◌≡◌, refl, ◌↔◌, ◌⊎◌, inl, inr, String, Bool, true, false, Option, none, some, List, [], ◌∷◌, All,
  arith, ap, sym, subst, ==_iff, Bool-cases, Option-cases, str_eq, eq_iff,
}
use process_metrics_platform.Documents.{
  Result, ok, raised, ◌>>=◌, pos, negsuc, Json, null, boolean, number, fraction, text, array,
  object, Items, no_items, item, Members, no_members, member, member_of, elements,
}
use process_metrics_platform.Documents.Access.{
  or_value, has, truthy, is_object, is_array, iterate, is_zero,
}
use process_metrics_platform.Metabase.Pack.{
  File, Pack, require, each, has_all, load_json_object, required_card_keys, required_layout_keys,
  required_filter_keys, fits_tags, validate_card, validate_object, validate_layout,
  validate_filters, validate_dashboard, validate_files, validate_pack,
}

-- The keys are there.
abbrev pub HasKeys : List String → Members → Type 0
HasKeys keys ms = All (λ key. (v : Json) × (member_of key ms ≡ some v)) keys

-- An object with these keys
abbrev pub IsSpec : List String → Json → Type 0
IsSpec keys j = (ms : Members) × (j ≡ object ms) × HasKeys keys ms

abbrev pub FitsTags : Option Json → Type 0
FitsTags o = (o ≡ none) ⊎ ((o ≡ some null) ⊎ ((tags : Members) × (o ≡ some (object tags))))

abbrev pub IsCard : File → Type 0
IsCard file =
    (card : Members) × (file ≡ ok (object card))
    × HasKeys required_card_keys card
    × FitsTags (member_of "template_tags" card)

-- A list of specs, or an empty text or object.
abbrev pub AreFilters : Json → Type 0
AreFilters j =
    ((specs : Items) × (j ≡ array specs) × All (IsSpec required_filter_keys) (elements specs))
    ⊎ ((j ≡ text "") ⊎ (j ≡ object no_members))

abbrev pub IsDashboard : File → Type 0
IsDashboard file =
    (dashboard : Members) × (file ≡ ok (object dashboard))
    × HasKeys ("name" ∷ "layout" ∷ []) dashboard
    × ((layout : Items) × (member_of "layout" dashboard ≡ some (array layout))
        × All (IsSpec required_layout_keys) (elements layout))
    × AreFilters (or_value (array no_items) (member_of "filters" dashboard))

abbrev pub IsPack : Pack → Type 0
IsPack pack =
    (cards : List File) × (dashboards : List File) × (pack.cards ≡ some cards)
    × (pack.dashboards ≡ some dashboards)
    × All IsCard cards
    × All IsDashboard dashboards

-- One check after another
seq_iff : (r s : Result {0} Unit) → ((r >>= λ _. s) ≡ ok tt) ↔ ((r ≡ ok tt) × (s ≡ ok tt))
seq_iff (ok tt) s = ground arith
seq_iff (raised e) s = ground arith

require_iff : (b : Bool) → (require b ≡ ok tt) ↔ (b ≡ true)
require_iff true = ground arith
require_iff false = ground arith

module _ {A : Type 0} where
  each_iff :
      (check : A → Result {0} Unit) (P : A → Type 0)
      → ((x : A) → (check x ≡ ok tt) ↔ P x)
      → (xs : List A) → (each check xs ≡ ok tt) ↔ All P xs
  unfolding each
  each_iff check P h [] = ground arith
  each_iff check P h (x ∷ xs) =
      ground (arith, seq_iff (check x) (each check xs), h x, each_iff check P h xs)

has_all_iff : (keys : List String) (ms : Members) → (has_all keys ms ≡ true) ↔ HasKeys keys ms
unfolding has_all has
has_all_iff [] ms = ground arith
has_all_iff (k ∷ ks) ms = elim (Option-cases (member_of k ms)) [
  | inl n ↦ ground (arith, n)
  | inr (v, y) ↦ (
    λ h. ((v, y), (has_all_iff ks ms).0 (ground (arith, h, y))),
    λ h. ground (arith, y, (has_all_iff ks ms).1 (h.1)),
  )
]

validate_object_iff :
    (keys : List String) (j : Json) → (validate_object keys j ≡ ok tt) ↔ IsSpec keys j
unfolding validate_object
validate_object_iff keys (object ms) = (
  (λ h. (ms, refl, (has_all_iff keys ms).0 ((require_iff (has_all keys ms)).0 h))),
  λ (ms', e, h). ground (arith, require_iff (has_all keys ms), has_all_iff keys ms, e, h),
)
validate_object_iff keys null = ground arith
validate_object_iff keys (boolean b) = ground arith
validate_object_iff keys (number z) = ground arith
validate_object_iff keys (fraction m e) = ground arith
validate_object_iff keys (text s) = ground arith
validate_object_iff keys (array js) = ground arith

fits_tags_iff : (o : Option Json) → (fits_tags o ≡ true) ↔ FitsTags o
unfolding fits_tags is_object
fits_tags_iff none = ground arith
fits_tags_iff (some null) = ground arith
fits_tags_iff (some (boolean b)) = ground arith
fits_tags_iff (some (number z)) = ground arith
fits_tags_iff (some (fraction m e)) = ground arith
fits_tags_iff (some (text s)) = ground arith
fits_tags_iff (some (array js)) = ground arith
fits_tags_iff (some (object ms)) = ((λ _. inr (inr (ms, refl))), λ _. refl)

validate_card_iff : (file : File) → (validate_card file ≡ ok tt) ↔ IsCard file
unfolding validate_card load_json_object
validate_card_iff (ok (object ms)) =
    let (into, back) =
      seq_iff (require (has_all required_card_keys ms))
        (require (fits_tags (member_of "template_tags" ms))) in
    let keys = has_all_iff required_card_keys ms in
    let tags = fits_tags_iff (member_of "template_tags" ms) in
    (
      (λ h.
          let (a, b) = into h in
          (
            ms,
            refl,
            keys.0 ((require_iff (has_all required_card_keys ms)).0 a),
            tags.0 ((require_iff (fits_tags (member_of "template_tags" ms))).0 b),
          )),
      λ (ms', e, h, t). back (
        ground (arith, keys, e, h, require_iff (has_all required_card_keys ms)),
        ground (arith, tags, e, t, require_iff (fits_tags (member_of "template_tags" ms))),
      ),
    )
validate_card_iff (ok null) = ground arith
validate_card_iff (ok (boolean b)) = ground arith
validate_card_iff (ok (number z)) = ground arith
validate_card_iff (ok (fraction m e)) = ground arith
validate_card_iff (ok (text s)) = ground arith
validate_card_iff (ok (array js)) = ground arith
validate_card_iff (raised e) = ground arith

abbrev IsLayout : Option Json → Type 0
IsLayout o =
    (layout : Items) × (o ≡ some (array layout))
    × All (IsSpec required_layout_keys) (elements layout)

layout_specs :
    (js : Items)
    → (each (validate_object required_layout_keys) (elements js) ≡ ok tt)
      ↔ All (IsSpec required_layout_keys) (elements js)
layout_specs js =
    each_iff (validate_object required_layout_keys) (IsSpec required_layout_keys)
      (validate_object_iff required_layout_keys) (elements js)

filter_specs :
    (js : List Json)
    → (each (validate_object required_filter_keys) js ≡ ok tt)
      ↔ All (IsSpec required_filter_keys) js
filter_specs =
    each_iff (validate_object required_filter_keys) (IsSpec required_filter_keys)
      (validate_object_iff required_filter_keys)

validate_layout_iff : (o : Option Json) → (validate_layout o ≡ ok tt) ↔ IsLayout o
unfolding validate_layout
validate_layout_iff none = ground arith
validate_layout_iff (some (array js)) = (
  (λ h. (js, refl, (layout_specs js).0 h)),
  λ (js', e, h). (layout_specs js).1 (ground (arith, e, h)),
)
validate_layout_iff (some null) = ground arith
validate_layout_iff (some (boolean b)) = ground arith
validate_layout_iff (some (number z)) = ground arith
validate_layout_iff (some (fraction m e)) = ground arith
validate_layout_iff (some (text s)) = ground arith
validate_layout_iff (some (object ms)) = ground arith

abbrev items_of : Json → Items
items_of (array js) = js
items_of _ = no_items

validate_filters_iff : (j : Json) → (validate_filters j ≡ ok tt) ↔ AreFilters j
unfolding validate_filters truthy is_array is_object iterate each is_zero elements
validate_filters_iff null = ground arith
validate_filters_iff (boolean true) = ground arith
validate_filters_iff (boolean false) = ground arith
validate_filters_iff (number (pos n)) = ground (arith, ==_iff n 0)
validate_filters_iff (number (negsuc n)) = ground arith
validate_filters_iff (fraction m e) = ground arith
validate_filters_iff (text s) = elim (Bool-cases (str_eq s "")) [
  | inl e ↦
      let nil = (eq_iff s "").0 e in ((λ _. inr (inl (ap (λ t. text t) nil))), λ _. rw nil refl)
  | inr e ↦ rw e (ground (arith, eq_iff s "", e))
]
validate_filters_iff (array no_items) = ((λ _. inl (no_items, refl, tt)), λ _. refl)
validate_filters_iff (array (item j js)) = (
  (λ h. inl (item j js, refl, (filter_specs (elements (item j js))).0 h)),
  λ h. (filter_specs (elements (item j js))).1 (elim h [
    | inl (specs, e, all) ↦
        subst (λ specs. All (IsSpec required_filter_keys) (elements specs)) (sym (ap items_of e))
          all
    | inr other ↦ absurd (ground (arith, other))
  ]),
)
validate_filters_iff (object no_members) = ground arith
validate_filters_iff (object (member k v ms)) = ground arith

abbrev members_at : File → Members
members_at (ok (object ms)) = ms
members_at _ = no_members

validate_dashboard_iff : (file : File) → (validate_dashboard file ≡ ok tt) ↔ IsDashboard file
unfolding validate_dashboard load_json_object
validate_dashboard_iff (ok (object ms)) =
    let keys = has_all_iff ("name" ∷ "layout" ∷ []) ms in
    let layout = validate_layout_iff (member_of "layout" ms) in
    let filters = validate_filters_iff (or_value (array no_items) (member_of "filters" ms)) in
    let required = require_iff (has_all ("name" ∷ "layout" ∷ []) ms) in
    let (into, back) = seq_iff (require (has_all ("name" ∷ "layout" ∷ []) ms)) (
      validate_layout (member_of "layout" ms) >>= λ _.
      validate_filters (or_value (array no_items) (member_of "filters" ms))) in
    let (into', back') =
      seq_iff (validate_layout (member_of "layout" ms))
        (validate_filters (or_value (array no_items) (member_of "filters" ms))) in
    (
      (λ h.
          let (a, rest) = into h in
          let (b, d) = into' rest in (ms, refl, keys.0 (required.0 a), layout.0 b, filters.0 d)),
      λ (ms', e, k, l, f).
          let q = sym (ap members_at e) in
          back (
            required.1 (keys.1 (subst (λ ms. HasKeys ("name" ∷ "layout" ∷ []) ms) q k)),
            back' (
              layout.1 (subst (λ ms. IsLayout (member_of "layout" ms)) q l),
              filters.1 (
                  subst (λ ms. AreFilters (or_value (array no_items) (member_of "filters" ms))) q
                    f),
            ),
          ),
    )
validate_dashboard_iff (ok null) = ground arith
validate_dashboard_iff (ok (boolean b)) = ground arith
validate_dashboard_iff (ok (number z)) = ground arith
validate_dashboard_iff (ok (fraction m e)) = ground arith
validate_dashboard_iff (ok (text s)) = ground arith
validate_dashboard_iff (ok (array js)) = ground arith
validate_dashboard_iff (raised e) = ground arith

abbrev files_at : Option (List File) → List File
files_at none = []
files_at (some files) = files

abbrev ArePacked : Option (List File) → Option (List File) → Type 0
ArePacked c d =
    (cards : List File) × (dashboards : List File) × (c ≡ some cards)
    × (d ≡ some dashboards)
    × All IsCard cards
    × All IsDashboard dashboards

validate_files_iff : (c d : Option (List File)) → (validate_files c d ≡ ok tt) ↔ ArePacked c d
unfolding validate_files
validate_files_iff none d = ground arith
validate_files_iff (some cards) none = ground arith
validate_files_iff (some cards) (some dashboards) =
    let (into, back) = seq_iff (each validate_card cards) (each validate_dashboard dashboards) in
    let cards_iff = each_iff validate_card IsCard validate_card_iff cards in
    let dashboards_iff =
      each_iff validate_dashboard IsDashboard validate_dashboard_iff dashboards in
    (
      (λ h.
          let (a, b) = into h in
          (cards, dashboards, refl, refl, cards_iff.0 a, dashboards_iff.0 b)),
      λ (cs, ds, e, f, a, b). back (
        cards_iff.1 (subst (All IsCard) (sym (ap files_at e)) a),
        dashboards_iff.1 (subst (All IsDashboard) (sym (ap files_at f)) b),
      ),
    )

-- The validation accepts a pack just where both directories are there, every card is an object with its
-- key, name and query whose template_tags, if there are any, are null or an object, and every dashboard is
-- an object with a name, a layout that is a list of objects that have card_key, row, col, size_x and size_y, and
-- filters that are left out or are a list of objects that have id and type (or are an empty text or object).
pub validate_pack_iff : (pack : Pack) → (validate_pack pack ≡ ok tt) ↔ IsPack pack
unfolding validate_pack
validate_pack_iff pack = validate_files_iff pack.cards pack.dashboards
