-- ===== src/Jira/Changelog.antt =====
-- parse_jira_changelog and extract_status_changes of pipelines/utils/__init__.py, and
-- transform_changelog_to_status_transitions of pipelines/utils/transformations.py.
use process_metrics_platform.Common.{
  String, Bool, false, Option, none, some, List, [], ◌∷◌, ◌++◌, Dict, lookup, str_eq, if◌then◌else◌,
}
use process_metrics_platform.Documents.{Result, ok, ◌>>=◌, fold, Json, null, text, dict, list}
use process_metrics_platform.Documents.Access.{get, iterate}
use process_metrics_platform.Jira.Datetime.{Datetime, parse_jira_datetime}
use process_metrics_platform.Jira.Issue.{part}

-- What an item has under its keys: a value, or a datetime.
pub data Value : Type 0 where
  plain : Json → Value
  moment : Option Datetime → Value

abbrev pub Item : Type 0
Item = Dict Value

-- item.get(key)
unfoldable pub read : String → Item → Value
unfolding lookup
read key item = elim (lookup key item) [ none ↦ plain null | some v ↦ v ]

pub record Change : Type 0 where
  pub field : Json
  pub field_type : Json
  pub from_value : Json
  pub to_value : Json
  pub from_id : Json
  pub to_id : Json

unfoldable pub read_change : Json → Result Change
unfolding get
read_change item = do
  field ← get item "field" null
  field_type ← get item "fieldtype" null
  from_value ← get item "fromString" null
  to_value ← get item "toString" null
  from_id ← get item "from" null
  to_id ← get item "to" null
  ok record {
    field = field;
    field_type = field_type;
    from_value = from_value;
    to_value = to_value;
    from_id = from_id;
    to_id = to_id;
  }

unfoldable pub changelog_item : Option Datetime → Json → Change → Item
changelog_item created author_id change =
    ("changed_at", moment created)
    ∷ ("author_account_id", plain author_id)
    ∷ ("field", plain change.field)
    ∷ ("field_type", plain change.field_type)
    ∷ ("from_value", plain change.from_value)
    ∷ ("to_value", plain change.to_value)
    ∷ ("from_id", plain change.from_id)
    ∷ ("to_id", plain change.to_id)
    ∷ []

-- items.append(...), for every item of a history
unfoldable pub add_item : Option Datetime → Json → List Item → Json → Result (List Item)
unfolding read_change changelog_item
add_item created author_id items raw =
    read_change raw >>= λ change. ok (items ++ (changelog_item created author_id change ∷ []))

module _ (strptime : String → String → Option Datetime) where
  -- The time and the author of a history, and its raw items
  unfoldable pub read_history : Json → Result (Option Datetime × Json × List Json)
  unfolding get parse_jira_datetime part iterate
  read_history history = do
    given ← get history "created" null
    created ← parse_jira_datetime strptime given
    author ← get history "author" (dict [])
    author_id ← part author "accountId"
    raw_items ← get history "items" (list [])
    raws ← iterate raw_items
    ok (created, author_id, raws)

  unfoldable pub add_history : List Item → Json → Result (List Item)
  unfolding read_history fold add_item
  add_history items history = read_history history >>= λ (created, author_id, raws).
      fold (add_item created author_id) items raws

  unfoldable pub parse_jira_changelog : Json → Result (List Item)
  unfolding get iterate fold add_history
  parse_jira_changelog raw = do
    given ← get raw "histories" (list [])
    histories ← iterate given
    fold add_history [] histories

abbrev is_text : String → Value → Bool
is_text s (plain (text t)) = str_eq t s
is_text s _ = false

-- item.get("field") == "status"
unfoldable pub is_status : Item → Bool
unfolding read
is_status item = is_text "status" (read "field" item)

unfoldable pub extract_status_changes : List Item → List Item
unfolding is_status
extract_status_changes [] = []
extract_status_changes (item ∷ items) =
    let rest = extract_status_changes items in if is_status item then item ∷ rest else rest

pub record Transition : Type 0 where
  pub issue_key : String
  pub from_status : Value
  pub to_status : Value
  pub changed_at : Value
  pub changed_by : Value

unfoldable pub transition_of : String → Item → Transition
unfolding read
transition_of issue_key item = record {
  issue_key = issue_key;
  from_status = read "from_value" item;
  to_status = read "to_value" item;
  changed_at = read "changed_at" item;
  changed_by = read "author_id" item;
}

-- The loop over the items
unfoldable pub transitions_of : String → List Item → List Transition
unfolding is_status transition_of
transitions_of issue_key [] = []
transitions_of issue_key (item ∷ items) =
    let rest = transitions_of issue_key items in
    if is_status item then transition_of issue_key item ∷ rest else rest

unfoldable pub transform_changelog_to_status_transitions :
    (String → String → Option Datetime) → String → Json → Result (List Transition)
unfolding parse_jira_changelog transitions_of
transform_changelog_to_status_transitions strptime issue_key raw =
    parse_jira_changelog strptime raw >>= λ items. ok (transitions_of issue_key items)
