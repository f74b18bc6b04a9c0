-- ===== src/Jira/Transitions.antt =====
-- The transitions that pipelines/utils/transformations.py makes of a changelog.
use process_metrics_platform.Common.{
  ◌≡◌, refl, sym, ap, ◌∙◌, subst, String, Option, List, [], ◌∷◌, ◌++◌, map, All, lookup, inl, inr,
  Bool-cases,
}
use process_metrics_platform.Documents.{
  Result, ok, raised, ◌>>=◌, >>=-ok, fold, fold-Keeps, Json, null, list,
}
use process_metrics_platform.Documents.Access.{get, iterate}
use process_metrics_platform.Jira.Datetime.{Datetime}
use process_metrics_platform.Jira.Changelog.{
  plain, Item, read, Change, read_change, read_history, changelog_item, add_item, add_history,
  parse_jira_changelog, is_status, extract_status_changes, Transition, transition_of,
  transitions_of, transform_changelog_to_status_transitions,
}

transitions_of-map :
    (issue_key : String) (items : List Item)
    → transitions_of issue_key items ≡ map (transition_of issue_key) (extract_status_changes items)
unfolding transitions_of extract_status_changes
transitions_of-map issue_key [] = refl
transitions_of-map issue_key (item ∷ items) = elim (Bool-cases (is_status item)) [
  | inl e ↦ rw e (ap (λ ts. transition_of issue_key item ∷ ts) (transitions_of-map issue_key items))
  | inr e ↦ rw e (transitions_of-map issue_key items)
]

-- The parser writes the author under another key.
abbrev HasNoAuthor : Item → Type 0
HasNoAuthor item = read "author_id" item ≡ plain null

abbrev transitions_at : Result (List Transition) → List Transition
transitions_at (ok ts) = ts
transitions_at (raised e) = []

abbrev items_at : Result (List Item) → List Item
items_at (ok items) = items
items_at (raised e) = []

changelog_item-HasNoAuthor :
    (created : Option Datetime) (author : Json) (change : Change)
    → HasNoAuthor (changelog_item created author change)
unfolding changelog_item read lookup
changelog_item-HasNoAuthor created author change = refl

append-HasNoAuthor :
    (items : List Item) (item : Item)
    → All HasNoAuthor items
    → HasNoAuthor item
    → All HasNoAuthor (items ++ (item ∷ []))
append-HasNoAuthor [] item all no_author = (no_author, tt)
append-HasNoAuthor (i ∷ items) item (first, all) no_author =
    (first, append-HasNoAuthor items item all no_author)

add_item-HasNoAuthor :
    (created : Option Datetime) (author : Json) (items : List Item) (raw : Json) (out : List Item)
    → All HasNoAuthor items
    → add_item created author items raw ≡ ok out
    → All HasNoAuthor out
unfolding add_item
add_item-HasNoAuthor created author items raw out all h =
    let (change, e, last) =
      >>=-ok (read_change raw) (λ change. ok (items ++ (changelog_item created author change ∷ [])))
        out h in
    subst (All HasNoAuthor) (ap items_at last) (
      append-HasNoAuthor items (changelog_item created author change) all
        (changelog_item-HasNoAuthor created author change))

module _ (strptime : String → String → Option Datetime) where
  add_raws-HasNoAuthor :
      (created : Option Datetime) (author : Json) (items : List Item) (raws : List Json)
      (out : List Item)
      → All HasNoAuthor items
      → fold (add_item created author) items raws ≡ ok out
      → All HasNoAuthor out
  add_raws-HasNoAuthor created author items raws out all h =
      fold-Keeps (All HasNoAuthor) (add_item created author) (add_item-HasNoAuthor created author)
        items raws out all h

  add_history-HasNoAuthor :
      (items : List Item) (history : Json) (out : List Item)
      → All HasNoAuthor items
      → add_history strptime items history ≡ ok out
      → All HasNoAuthor out
  unfolding add_history
  add_history-HasNoAuthor items history out all h =
      let (found, e, last) =
        >>=-ok (read_history strptime history)
          (λ (created, author_id, raws). fold (add_item created author_id) items raws) out h in
      add_raws-HasNoAuthor (found.0) (found.1) items (found.2) out all last

  parse_jira_changelog-HasNoAuthor :
      (raw : Json) (items : List Item)
      → parse_jira_changelog strptime raw ≡ ok items
      → All HasNoAuthor items
  unfolding parse_jira_changelog
  parse_jira_changelog-HasNoAuthor raw items h =
      let (given, e, rest) =
        >>=-ok (get raw "histories" (list []))
          (λ given. iterate given >>= λ histories. fold (add_history strptime) [] histories) items
          h in
      let (histories, f, last) =
        >>=-ok (iterate given) (λ histories. fold (add_history strptime) [] histories) items rest in
      fold-Keeps (All HasNoAuthor) (add_history strptime) add_history-HasNoAuthor [] histories items
        tt last

  no_author :
      (issue_key : String) (items : List Item)
      → All HasNoAuthor items
      → All (λ t. t.changed_by ≡ plain null) (transitions_of issue_key items)
  unfolding transitions_of transition_of
  no_author issue_key [] all = tt
  no_author issue_key (item ∷ items) (first, all) = elim (Bool-cases (is_status item)) [
    | inl e ↦ rw e (first, no_author issue_key items all)
    | inr e ↦ rw e (no_author issue_key items all)
  ]

  -- The transitions of a changelog are those of its status changes, in their order, and none of them says who made the
  -- change: changed_by is None whatever the authors of the histories are.
  pub transform_changelog_to_status_transitions_lem :
      (issue_key : String) (raw : Json) (transitions : List Transition)
      → transform_changelog_to_status_transitions strptime issue_key raw ≡ ok transitions
      → ((items : List Item) × (parse_jira_changelog strptime raw ≡ ok items)
          × (transitions ≡ map (transition_of issue_key) (extract_status_changes items)))
        × All (λ t. t.changed_by ≡ plain null) transitions
  unfolding transform_changelog_to_status_transitions
  transform_changelog_to_status_transitions_lem issue_key raw transitions h =
      let (items, e, last) =
        >>=-ok (parse_jira_changelog strptime raw) (λ items. ok (transitions_of issue_key items))
          transitions h in
      let same = ap transitions_at last in
      (
        (items, e, sym same ∙ transitions_of-map issue_key items),
        subst (All (λ t. t.changed_by ≡ plain null)) same
            (no_author issue_key items (parse_jira_changelog-HasNoAuthor raw items e)),
      )
