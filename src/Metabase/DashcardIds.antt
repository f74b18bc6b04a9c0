-- ===== src/Metabase/DashcardIds.antt =====
-- The ids of the dashcards that bi/providers/metabase/provider.py sends for a layout.
use process_metrics_platform.Common.{
  AreDistinct, ℕ, suc, ◌<◌, ◌≡◌, ◌≢◌, refl, sym, ap, ◌∙◌, inl, inr, String, Option, some, List, [],
  ◌∷◌, ◌++◌, map, append-nil, append_assoc, length, All, arith, Option-cases,
}
use process_metrics_platform.Documents.{
  Result, ok, raised, ◌>>=◌, >>=-ok, fold, ℤ, pos, negsuc, Json, number, object, member_of,
}
use process_metrics_platform.Documents.Access.{subscript}
use process_metrics_platform.Documents.Keys.{Key, number_key, Keyed, find}
use process_metrics_platform.Metabase.Cards.{Cards}
use process_metrics_platform.Metabase.Filters.{Filter}
use process_metrics_platform.Metabase.Layout.{
  Layout, no_cards, card_id_of, tags_of_card, Placement, read_placement, dashcard, dashcard_id,
  put_card, place_card, place_cards,
}

-- The number at a key of an object
abbrev number_in : Option Json → ℤ
number_in (some (number z)) = z
number_in _ = pos 0

unfoldable pub number_at : String → Json → ℤ
unfolding member_of
number_at key (object ms) = number_in (member_of key ms)
number_at key _ = pos 0

abbrev pub card_of : Json → ℤ
card_of d = number_at "card_id" d

abbrev pub id_of : Json → ℤ
id_of d = number_at "id" d

-- The ids for these cards when `used` temporary ones are used: that of the dashcard that the card has,
-- or the next one.
abbrev pub ids_for : Keyed ℤ → ℕ → List ℤ → List ℤ
ids_for existing used [] = []
ids_for existing used (card ∷ cards) =
    let (id, used') = dashcard_id (find (number_key card) existing) used in
    id ∷ ids_for existing used' cards

abbrev layout_at : Result Layout → Layout
layout_at (ok layout) = layout
layout_at (raised e) = no_cards

module _ (cards : Cards) (filters : List Filter) (existing : Keyed ℤ) where
  -- The rest of a round, after its key, its card, the card's tags and its placement.
  abbrev with_placement : Layout → ℤ → Placement → Result Layout
  with_placement layout card_id placement = ok (
      put_card layout (dashcard card_id placement)
        (dashcard_id (find (number_key card_id) existing) layout.used))

  abbrev with_tags : Json → Layout → ℤ → List String → Result Layout
  with_tags item layout card_id tags =
      read_placement filters tags card_id item >>= with_placement layout card_id

  abbrev with_card : Json → Layout → Json → ℤ → Result Layout
  with_card item layout key card_id =
      tags_of_card cards.field_tags key >>= with_tags item layout card_id

  abbrev with_key : Json → Layout → Json → Result Layout
  with_key item layout key = card_id_of cards.card_ids key >>= with_card item layout key

  -- A card is added to the layout, with its id.
  abbrev Adds : Layout → Layout → Type 0
  Adds before after =
      (d : Json) × (after.dashcards ≡ before.dashcards ++ (d ∷ []))
      × ((id_of d, after.used) ≡ dashcard_id (find (number_key (card_of d)) existing) before.used)

  place_card-Adds :
      (item : Json) (before after : Layout)
      → place_card cards filters existing before item ≡ ok after
      → Adds before after
  unfolding place_card dashcard number_at
  place_card-Adds item before after h =
      let (key, e, h1) = >>=-ok (subscript item "card_key") (with_key item before) after h in
      let (card_id, e1, h2) =
        >>=-ok (card_id_of cards.card_ids key) (with_card item before key) after h1 in
      let (tags, e2, h3) =
        >>=-ok (tags_of_card cards.field_tags key) (with_tags item before card_id) after h2 in
      let (placement, e3, h4) =
        >>=-ok (read_placement filters tags card_id item) (with_placement before card_id) after
          h3 in
      let same = sym (ap layout_at h4) in
      let id = (dashcard_id (find (number_key card_id) existing) before.used).0 in
      (
        dashcard card_id placement id,
        ap (λ layout. layout.dashcards) same,
        ap (λ layout. (id, layout.used)) same,
      )

  -- What the loop adds to the layout
  abbrev Placed : List Json → Layout → Layout → Type 0
  Placed items before after =
      (new : List Json) × (after.dashcards ≡ before.dashcards ++ new)
      × (map id_of new ≡ ids_for existing before.used (map card_of new))
      × (length new ≡ length items)

  abbrev ids_after : List Json → ℤ × ℕ → List ℤ
  ids_after new (id, used) = id ∷ ids_for existing used (map card_of new)

  Placed-cons :
      (item : Json) (items : List Json) (before mid after : Layout)
      → Adds before mid
      → Placed items mid after
      → Placed (item ∷ items) before after
  Placed-cons item items before mid after (d, e, f) (new, g, i, n) = (
    d ∷ new,
    g ∙ ap (λ ds. ds ++ new) e ∙ append_assoc before.dashcards (d ∷ []) new,
    ap (λ ids. id_of d ∷ ids) i ∙ ap (ids_after new) f,
    omega (arith, n),
  )

  fold-Placed :
      (items : List Json) (before after : Layout)
      → fold (place_card cards filters existing) before items ≡ ok after
      → Placed items before after
  unfolding fold
  fold-Placed [] before after h = (
    [],
    ap (λ layout. layout.dashcards) (ap layout_at (sym h)) ∙ sym (append-nil before.dashcards),
    refl,
    refl,
  )
  fold-Placed (item ∷ items) before after h =
      let (mid, e, rest) =
        >>=-ok (place_card cards filters existing before item)
          (λ next. fold (place_card cards filters existing) next items) after h in
      Placed-cons item items before mid after (place_card-Adds item before mid e)
        (fold-Placed items mid after rest)

-- The dashcards of the dashboard have ids of their own, which are not negative.
abbrev pub AreDashcards : Keyed ℤ → Type 0
AreDashcards existing =
    ((j k : Key) (id : ℤ) → find j existing ≡ some id → find k existing ≡ some id → j ≡ k)
    × ((k : Key) (id : ℤ) → find k existing ≡ some id → (n : ℕ) × (id ≡ pos n))

abbrev number_of : Key → ℤ
number_of (number_key z) = z
number_of _ = pos 0

module _ (existing : Keyed ℤ) (laws : AreDashcards existing) where
  -- An existing id is no temporary one, and no id of another card.
  existing-Unused :
      (card id : ℤ) (used : ℕ) (cards : List ℤ)
      → find (number_key card) existing ≡ some id
      → All (λ c. c ≢ card) cards
      → All (λ i. i ≢ id) (ids_for existing used cards)
  unfolding dashcard_id
  existing-Unused card id used [] e h = tt
  existing-Unused card id used (c ∷ cards) e (ne, h) =
      elim (Option-cases (find (number_key c) existing)) [
        | inl free ↦ rw free (
          (λ q. let (n, p) = laws.1 (number_key card) id e in ground (arith, q, p)),
          existing-Unused card id (suc used) cards e h,
        )
        | inr (other, f) ↦ rw f (
          (λ q. ne (ap number_of (laws.0 (number_key c) (number_key card) id (f ∙ ap some q) e))),
          existing-Unused card id used cards e h,
        )
      ]

  -- A temporary id is not used again.
  temporary-Unused :
      (n used : ℕ) (cards : List ℤ)
      → n < used
      → All (λ i. i ≢ negsuc n) (ids_for existing used cards)
  unfolding dashcard_id
  temporary-Unused n used [] lt = tt
  temporary-Unused n used (c ∷ cards) lt = elim (Option-cases (find (number_key c) existing)) [
    | inl free ↦
        rw free
          ((λ q. ground (arith, q, lt)), temporary-Unused n (suc used) cards (omega (arith, lt)))
    | inr (other, f) ↦ rw f (
      (λ q. let (m, p) = laws.1 (number_key c) other f in ground (arith, q, p)),
      temporary-Unused n used cards lt,
    )
  ]

  ids_for-AreDistinct :
      (used : ℕ) (cards : List ℤ) → AreDistinct cards → AreDistinct (ids_for existing used cards)
  unfolding dashcard_id
  ids_for-AreDistinct used [] d = tt
  ids_for-AreDistinct used (c ∷ cards) (ne, d) =
      elim (Option-cases (find (number_key c) existing)) [
        | inl free ↦ rw free (
          temporary-Unused used (suc used) cards (omega arith),
          ids_for-AreDistinct (suc used) cards d,
        )
        | inr (id, f) ↦
            rw f (existing-Unused c id used cards f ne, ids_for-AreDistinct used cards d)
      ]

-- The layout that place_cards makes has a dashcard for each of its items, and where no card stands twice in
-- it, no two of these have the same id: the dashcards that the dashboard has keep theirs, which are
-- distinct and not negative, and the others get -1, -2 and so on.
pub place_cards-AreDistinct :
    (cards : Cards) (filters : List Filter) (existing : Keyed ℤ) (items : List Json)
    (layout : Layout)
    → AreDashcards existing
    → place_cards cards filters existing items ≡ ok layout
    → AreDistinct (map card_of layout.dashcards)
    → (length layout.dashcards ≡ length items)
      × AreDistinct (map id_of layout.dashcards)
      × (map id_of layout.dashcards ≡ ids_for existing 0 (map card_of layout.dashcards))
unfolding place_cards
place_cards-AreDistinct cards filters existing items layout laws h d =
    let (new, e, i, n) = fold-Placed cards filters existing items no_cards layout h in
    let ids : map id_of layout.dashcards ≡ ids_for existing 0 (map card_of layout.dashcards) =
      rw e i in
    (
      ap length e ∙ n,
      rw ids (ids_for-AreDistinct existing laws 0 (map card_of layout.dashcards) d),
      ids,
    )
