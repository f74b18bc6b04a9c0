-- ===== src/Metabase/KnownCards.antt =====
-- The cards that bi/providers/metabase/provider.py has made, as the dashboards find them.
use process_metrics_platform.Common.{
  ◌≡◌, refl, ap, ◌∙◌, subst, String, none, List, [], ◌∷◌, All, arith, Dict, inl, inr, Bool-cases,
}
use process_metrics_platform.Documents.{Result, ok, raised, ℤ, Json, object, Members, runtime_error}
use process_metrics_platform.Documents.{
  ◌>>=◌ as chain, null, boolean, number, fraction, text, array, no_members,
}
use process_metrics_platform.Documents.Access.{Conversions, subscript, or_raise}
use process_metrics_platform.Documents.Keys.{
  Key, key_of, Keyed, find, assign, find-assign, same_key, same_key_iff,
}
use process_metrics_platform.Metabase.Client.{
  World, Client, pure, lift, loop, ◌>>=◌, >>=-ok, get_method, request,
}
use process_metrics_platform.Metabase.Pack.{File, Pack, files_of, load_json_object}
use process_metrics_platform.Metabase.Database.{extract_list, get_field_id_map}
use process_metrics_platform.Metabase.Collections.{CollectionIds}
use process_metrics_platform.Metabase.Layout.{card_id_of}
use process_metrics_platform.Metabase.Cards.{
  Cards, add_card, prepare_card, save_card, store_card, save_and_store, upsert_named, upsert_spec,
  upsert_card, upsert_files, upsert_cards,
}

-- The card of the file has an id, which a dashboard finds by the card's key.
abbrev pub IsKnown : Cards → File → Type 0
IsKnown cards file =
    (card : Members) × (key : Json) × (id : ℤ) × (file ≡ ok (object card))
    × (subscript (object card) "key" ≡ ok key)
    × (card_id_of cards.card_ids key ≡ ok id)

-- Every key that is found before is found afterwards.
abbrev Keeps : Cards → Cards → Type 0
Keeps before after =
    (key : Json) (id : ℤ)
    → card_id_of before.card_ids key ≡ ok id
    → (new : ℤ) × (card_id_of after.card_ids key ≡ ok new)

abbrev HasKey : Cards → Json → Type 0
HasKey cards key = (id : ℤ) × (card_id_of cards.card_ids key ≡ ok id)

abbrev found_in : Keyed ℤ → Key → Result ℤ
found_in ids k = or_raise runtime_error (find k ids)

found_in-assign :
    (k : Key) (id : ℤ) (ids : Keyed ℤ) (r : Result Key) (old : ℤ)
    → chain r (found_in ids) ≡ ok old
    → (new : ℤ) × (chain r (found_in (assign k id ids)) ≡ ok new)
unfolding or_raise
found_in-assign k id ids (raised e) old h = absurd (ground (arith, h))
found_in-assign k id ids (ok j) old h = elim (Bool-cases (same_key k j)) [
  | inl e ↦ (id, rw (find-assign k j id ids, e) refl)
  | inr e ↦ (old, rw (find-assign k j id ids, e) h)
]

found_in-same : (k : Key) (id : ℤ) (ids : Keyed ℤ) → found_in (assign k id ids) k ≡ ok id
unfolding or_raise
found_in-same k id ids = rw (find-assign k k id ids, (same_key_iff k k).1 refl) refl

abbrev cards_at : Result Cards → Cards
cards_at (ok cards) = cards
cards_at (raised e) = record { card_ids = []; field_tags = [] }

abbrev members_at : Result Members → Members
members_at (ok ms) = ms
members_at (raised e) = no_members

load_json_object-object :
    (file : File) (card : Members) → load_json_object file ≡ ok card → file ≡ ok (object card)
unfolding load_json_object
load_json_object-object (ok (object ms)) card h = ap (λ r. ok (object (members_at r))) h
load_json_object-object (ok null) card h = absurd (ground (arith, h))
load_json_object-object (ok (boolean b)) card h = absurd (ground (arith, h))
load_json_object-object (ok (number z)) card h = absurd (ground (arith, h))
load_json_object-object (ok (fraction m e)) card h = absurd (ground (arith, h))
load_json_object-object (ok (text s)) card h = absurd (ground (arith, h))
load_json_object-object (ok (array js)) card h = absurd (ground (arith, h))
load_json_object-object (raised e) card h = absurd (ground (arith, h))

store_card-Keeps :
    (c : Conversions) (w : World) (md5 : String → String) (cards : Cards) (key : Json)
    (tags : List String) (id : ℤ) (d : Client) (out : Cards)
    → (store_card md5 c w cards key tags id d).0 ≡ ok out
    → Keeps cards out × HasKey out key
unfolding store_card card_id_of
store_card-Keeps c w md5 cards key tags id d out h =
    let (k, e, last) =
      >>=-ok (lift (key_of key))
        (λ k. pure (record {
          card_ids = assign k id cards.card_ids;
          field_tags = assign k tags cards.field_tags;
        }))
        d out h in
    let same = ap (λ cs. cs.card_ids) (ap cards_at last) in
    (
      (λ j old f.
          subst (λ ids. (new : ℤ) × (card_id_of ids j ≡ ok new)) same
            (found_in-assign k id cards.card_ids (key_of j) old f)),
      (
        id,
        subst (λ ids. card_id_of ids key ≡ ok id) same
            (ap (λ r. chain r (found_in (assign k id cards.card_ids))) e
              ∙ found_in-same k id cards.card_ids),
      ),
    )

module _ (md5 : String → String) (c : Conversions) (w : World) where
  save_and_store-Keeps :
      (found : Keyed Json) (cards : Cards) (name key : Json) (made : Json × List String)
      (d : Client) (out : Cards)
      → (save_and_store md5 c w found cards name key made d).0 ≡ ok out
      → Keeps cards out × HasKey out key
  unfolding save_and_store
  save_and_store-Keeps found cards name key (payload, tags) d out h =
      let (n, e, rest) =
        >>=-ok (lift (key_of name))
          (λ n. save_card md5 c w payload (find n found) >>= store_card md5 c w cards key tags) d
          out h in
      let (id, f, last) =
        >>=-ok (save_card md5 c w payload (find n found)) (store_card md5 c w cards key tags) d out
          rest in
      store_card-Keeps c w md5 cards key tags id _ out last

  module _ (database_id : ℤ) (collections : CollectionIds) (found : Keyed Json)
      (field_ids : Dict ℤ) where
    -- The card of a file is known afterwards, and so is what was known before.
    upsert_card-Keeps :
        (cards : Cards) (file : File) (d : Client) (out : Cards)
        → (upsert_card md5 c w database_id collections found field_ids cards file d).0 ≡ ok out
        → Keeps cards out × IsKnown out file
    unfolding upsert_card upsert_spec upsert_named
    upsert_card-Keeps cards file d out h =
        let (card, e, h1) =
          >>=-ok (lift (load_json_object file))
            (λ members.
              upsert_spec md5 c w database_id collections found field_ids cards (object members))
            d out h in
        let (name, f, h2) =
          >>=-ok (lift (subscript (object card) "name"))
            (λ name.
              lift (subscript (object card) "key")
              >>= upsert_named md5 c w database_id collections found field_ids cards (object card)
                  name)
            d out h1 in
        let (key, g, h3) =
          >>=-ok (lift (subscript (object card) "key"))
            (upsert_named md5 c w database_id collections found field_ids cards (object card) name)
            d out h2 in
        let (made, i, h4) =
          >>=-ok (prepare_card md5 c w database_id collections field_ids (object card) name key)
            (save_and_store md5 c w found cards name key) d out h3 in
        let (keeps, (id, known)) = save_and_store-Keeps found cards name key made _ out h4 in
        (keeps, (card, key, id, load_json_object-object file card e, g, known))

    IsKnown-Keeps :
        (before after : Cards) (file : File)
        → Keeps before after
        → IsKnown before file
        → IsKnown after file
    IsKnown-Keeps before after file keeps (card, key, id, e, f, g) =
        let (new, h) = keeps key id g in (card, key, new, e, f, h)

    loop-Known :
        (files : List File) (cards : Cards) (d : Client) (out : Cards)
        → (loop (upsert_card md5 c w database_id collections found field_ids) cards files d).0
          ≡ ok out
        → Keeps cards out × All (IsKnown out) files
    unfolding loop
    loop-Known [] cards d out h =
        ((λ key id f. (id, subst (λ cs. card_id_of cs.card_ids key ≡ ok id) (ap cards_at h) f)), tt)
    loop-Known (file ∷ files) cards d out h =
        let (mid, e, rest) =
          >>=-ok (upsert_card md5 c w database_id collections found field_ids cards file)
            (λ next. loop (upsert_card md5 c w database_id collections found field_ids) next files)
            d out h in
        let (keeps, known) = upsert_card-Keeps cards file d mid e in
        let (later, all) = loop-Known files mid _ out rest in
        (
          (λ key id f. let (new, g) = keeps key id f in later key new g),
          (IsKnown-Keeps mid out file later known, all),
        )

upsert_files-Known :
    (md5 : String → String) (c : Conversions) (w : World) (database_id : ℤ)
    (collections : CollectionIds) (files : List File) (d : Client) (cards : Cards)
    → (upsert_files md5 c w database_id collections files d).0 ≡ ok cards
    → All (IsKnown cards) files
unfolding upsert_files
upsert_files-Known md5 c w database_id collections [] d cards h = tt
upsert_files-Known md5 c w database_id collections (file ∷ files) d cards h =
    let none_made : Cards = record { card_ids = []; field_tags = [] } in
    let (listed, e, h1) =
      >>=-ok (request w get_method "/api/card" none (200 ∷ []))
        (λ listed. loop add_card [] (extract_list listed) >>= λ found.
          get_field_id_map w c database_id >>= λ field_ids.
          loop (upsert_card md5 c w database_id collections found field_ids) none_made
            (file ∷ files))
        d cards h in
    let (found, f, h2) =
      >>=-ok (loop add_card [] (extract_list listed))
        (λ found. get_field_id_map w c database_id >>= λ field_ids.
          loop (upsert_card md5 c w database_id collections found field_ids) none_made
            (file ∷ files))
        _ cards h1 in
    let (field_ids, g, h3) =
      >>=-ok (get_field_id_map w c database_id)
        (λ field_ids.
          loop (upsert_card md5 c w database_id collections found field_ids) none_made
            (file ∷ files))
        _ cards h2 in
    (loop-Known md5 c w database_id collections found field_ids (file ∷ files) none_made _ cards
      h3).1

-- When the cards are upserted, every card file of the pack is an object with a key by which the dashboards find
-- an id for it, so an item of a layout whose card_key is a key of one of them is no unknown card.
pub upsert_cards-Known :
    (md5 : String → String) (c : Conversions) (w : World) (pack : Pack) (database_id : ℤ)
    (collections : CollectionIds) (d : Client) (cards : Cards)
    → (upsert_cards md5 c w pack database_id collections d).0 ≡ ok cards
    → All (IsKnown cards) (files_of pack.cards)
unfolding upsert_cards
upsert_cards-Known md5 c w pack database_id collections d cards h =
    upsert_files-Known md5 c w database_id collections (files_of pack.cards) d cards h
