-- ===== src/Metabase/Layout.antt =====
-- The cards on a dashboard, in bi/providers/metabase/provider.py.
use process_metrics_platform.Common.{
  ℕ, suc, String, Bool, true, false, if◌then◌else◌, Option, none, some, List, [], ◌∷◌, ◌++◌,
}
use process_metrics_platform.Documents.{
  runtime_error, Result, ok, ◌>>=◌, fold, ℤ, negsuc, Json, null, number, dict, list,
}
use process_metrics_platform.Documents.Access.{
  or_raise, get, subscript, truthy, iterate, Conversions, int_of,
}
use process_metrics_platform.Documents.Keys.{number_key, key_of, Keyed, find, assign}
use process_metrics_platform.Metabase.Cards.{Cards, safe_viz_settings}
use process_metrics_platform.Metabase.Filters.{Filter, build_filter_mappings}

-- The dashcards so far, and the number of temporary ids that are used: the next one is -1 less it.
pub record Layout : Type 0 where
  pub dashcards : List Json
  pub used : ℕ

abbrev pub no_cards : Layout
no_cards = record { dashcards = []; used = 0 }

-- card_ids[key], or a RuntimeError where the key is unknown
unfoldable pub card_id_of : Keyed ℤ → Json → Result ℤ
unfolding key_of find or_raise
card_id_of card_ids key = key_of key >>= λ k. or_raise runtime_error (find k card_ids)

abbrev pub or_empty : Option (List String) → List String
or_empty none = []
or_empty (some tags) = tags

abbrev pub mappings_or : Json → Result (List Json) → Result Json
unfolding truthy
mappings_or given built =
    if truthy given then ok given else (built >>= λ mappings. ok (list mappings))

-- The id of the dashcard: that of the card's dashcard, or the next temporary one.
unfoldable pub dashcard_id : Option ℤ → ℕ → ℤ × ℕ
dashcard_id (some id) used = (id, used)
dashcard_id none used = (negsuc used, suc used)

-- What an item says of its card.
pub record Placement : Type 0 where
  pub row : Json
  pub col : Json
  pub size_x : Json
  pub size_y : Json
  pub mappings : Json
  pub viz : Json

unfoldable pub dashcard : ℤ → Placement → ℤ → Json
dashcard card_id p id = dict (
    ("card_id", number card_id)
    ∷ ("row", p.row)
    ∷ ("col", p.col)
    ∷ ("size_x", p.size_x)
    ∷ ("size_y", p.size_y)
    ∷ ("parameter_mappings", p.mappings)
    ∷ ("visualization_settings", p.viz)
    ∷ ("id", number id)
    ∷ [])

abbrev pub put_card : Layout → (ℤ → Json) → ℤ × ℕ → Layout
put_card layout make (id, used) = record {
  dashcards = layout.dashcards ++ (make id ∷ []);
  used = used;
}

unfoldable pub read_placement : List Filter → List String → ℤ → Json → Result Placement
unfolding subscript get build_filter_mappings mappings_or safe_viz_settings
read_placement filters tags card_id item = do
  row ← subscript item "row"
  col ← subscript item "col"
  size_x ← subscript item "size_x"
  size_y ← subscript item "size_y"
  given ← get item "parameter_mappings" null
  mappings ← mappings_or given (build_filter_mappings item card_id filters tags)
  settings ← get item "visualization_settings" (dict [])
  viz ← safe_viz_settings settings
  ok record {
    row = row;
    col = col;
    size_x = size_x;
    size_y = size_y;
    mappings = mappings;
    viz = viz;
  }

-- card_field_filter_tags.get(key, set())
unfoldable pub tags_of_card : Keyed (List String) → Json → Result (List String)
unfolding key_of find
tags_of_card field_tags key = key_of key >>= λ k. ok (or_empty (find k field_tags))

-- One round of the loop over the layout; `existing` has the dashcards of the dashboard by their cards.
unfoldable pub place_card : Cards → List Filter → Keyed ℤ → Layout → Json → Result Layout
unfolding subscript card_id_of tags_of_card read_placement find dashcard dashcard_id
place_card cards filters existing layout item = do
  key ← subscript item "card_key"
  card_id ← card_id_of cards.card_ids key
  tags ← tags_of_card cards.field_tags key
  placement ← read_placement filters tags card_id item
  ok (
      put_card layout (dashcard card_id placement)
        (dashcard_id (find (number_key card_id) existing) layout.used))

unfoldable pub place_cards : Cards → List Filter → Keyed ℤ → List Json → Result Layout
unfolding place_card fold
place_cards cards filters existing items = fold (place_card cards filters existing) no_cards items

module _ (c : Conversions) where
  abbrev add_if : Keyed ℤ → Json → Bool → Result (Keyed ℤ)
  unfolding subscript int_of assign
  add_if existing d true = do
    card ← subscript d "card_id"
    card_id ← int_of c card
    given ← subscript d "id"
    id ← int_of c given
    ok (assign (number_key card_id) id existing)
  add_if existing d false = ok existing

  -- {int(d["card_id"]): int(d["id"]) for d in existing_dashcards if d.get("card_id")}
  unfoldable pub add_dashcard : Keyed ℤ → Json → Result (Keyed ℤ)
  unfolding get truthy add_if
  add_dashcard existing d = do card ← get d "card_id" null; add_if existing d (truthy card)

  unfoldable pub existing_by_card_id : Json → Result (Keyed ℤ)
  unfolding iterate fold add_dashcard
  existing_by_card_id dashcards = do ds ← iterate dashcards; fold add_dashcard [] ds
