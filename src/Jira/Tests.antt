-- ===== src/Jira/Tests.antt =====
-- What Jira sends, on small inputs.
use process_metrics_platform.Common.{
  ◌≡◌, refl, String, Option, none, some, List, [], ◌∷◌, map, All, str_eq, if◌then◌else◌,
}
use process_metrics_platform.Documents.{
  ok, pos, Json, null, number, text, object, Members, dict, list, members_of, member_of,
}
use process_metrics_platform.Documents.Access.{Conversions, or_value}
use process_metrics_platform.Jira.Datetime.{
  Datetime, aware, has_char, zoned_format, fraction_format, parse_jira_datetime,
}
use process_metrics_platform.Jira.Offsets.{
  stamp, plus, minus, zulu, IsPlain, IsDateTime, parse_jira_datetime_lem,
}
use process_metrics_platform.Jira.Issue.{CleanIssue, external_id_of, transform_raw_issue_to_clean}
use process_metrics_platform.Jira.Shape.{
  AreFields, IsStatus, AreComponents, transform_raw_issue_to_clean_lem,
}
use process_metrics_platform.Jira.Changelog.{
  plain, moment, Item, Transition, parse_jira_changelog, extract_status_changes, transition_of,
  transform_changelog_to_status_transitions,
}
use process_metrics_platform.Jira.Transitions.{transform_changelog_to_status_transitions_lem}

-- A strptime that knows one text of each format.
abbrev strptime : String → String → Option Datetime
strptime s format =
    if str_eq format zoned_format
    then (if str_eq s "2024-01-01T10:00:00+0000" then some (aware 63839700000000000) else none)
    else none

abbrev conversions : Conversions
conversions = record { parse_int = λ _. none; print = λ _. "" }

zulu_example :
    parse_jira_datetime strptime (text "2024-01-01T10:00:00.000Z")
    ≡ ok (some (aware 63839700000000000))
unfolding parse_jira_datetime
zulu_example = refl

-- An offset of Jira that is behind UTC is lost.
minus_example : parse_jira_datetime strptime (text "2024-01-01T05:00:00.000-0500") ≡ ok none
unfolding parse_jira_datetime
minus_example = refl

base-IsDateTime : IsDateTime "2024-01-01T10:00:00"
unfolding has_char
base-IsDateTime = (refl, refl, refl)

fraction-IsPlain : IsPlain "000"
unfolding has_char
fraction-IsPlain = (refl, refl, refl, refl)

zone-IsPlain : IsPlain "0500"
unfolding has_char
zone-IsPlain = (refl, refl, refl, refl)

parse_jira_datetime_lem_example :
    (parse_jira_datetime strptime (text (stamp "2024-01-01T10:00:00" "000" plus "0500"))
      ≡ ok (strptime "2024-01-01T10:00:00+0500" zoned_format))
    × (parse_jira_datetime strptime (text (stamp "2024-01-01T10:00:00" "000" zulu ""))
        ≡ ok (strptime "2024-01-01T10:00:00+0000" zoned_format))
    × (parse_jira_datetime strptime (text (stamp "2024-01-01T10:00:00" "000" minus "0500"))
        ≡ ok (strptime (stamp "2024-01-01T10:00:00" "000" minus "0500") fraction_format))
parse_jira_datetime_lem_example =
    parse_jira_datetime_lem strptime "2024-01-01T10:00:00" "000" "0500" base-IsDateTime
      fraction-IsPlain zone-IsPlain

abbrev history : Json
history = dict (
    ("created", text "2024-01-01T10:00:00.000+0000")
    ∷ ("author", dict (("accountId", text "u1") ∷ []))
    ∷ (
      "items",
      list (
          dict (
            ("field", text "status")
            ∷ ("fromString", text "To Do")
            ∷ ("toString", text "Done")
            ∷ [])
          ∷ dict (("field", text "assignee") ∷ [])
          ∷ []),
    )
    ∷ [])

abbrev changelog : Json
changelog = dict (("histories", list (history ∷ [])) ∷ [])

abbrev to_done : Transition
to_done = record {
  issue_key = "P-1";
  from_status = plain (text "To Do");
  to_status = plain (text "Done");
  changed_at = moment (some (aware 63839700000000000));
  changed_by = plain null;
}

transitions_example :
    transform_changelog_to_status_transitions strptime "P-1" changelog ≡ ok (to_done ∷ [])
unfolding transform_changelog_to_status_transitions
transitions_example = refl

transform_changelog_to_status_transitions_lem_example :
    ((items : List Item) × (parse_jira_changelog strptime changelog ≡ ok items)
      × (to_done ∷ [] ≡ map (transition_of "P-1") (extract_status_changes items)))
    × All (λ t. t.changed_by ≡ plain null) (to_done ∷ [])
transform_changelog_to_status_transitions_lem_example =
    transform_changelog_to_status_transitions_lem strptime "P-1" changelog (to_done ∷ [])
      transitions_example

abbrev fields : Members
fields = members_of (
    ("summary", text "Fix it")
    ∷ (
      "status",
      dict (("name", text "Done") ∷ ("statusCategory", dict (("key", text "done") ∷ [])) ∷ []),
    )
    ∷ ("created", text "2024-01-01T10:00:00.000+0000")
    ∷ ("assignee", null)
    ∷ ("components", list (dict (("name", text "api") ∷ []) ∷ []))
    ∷ [])

abbrev issue : Members
issue =
    members_of (("id", number (pos 10001)) ∷ ("key", text "P-1") ∷ ("fields", object fields) ∷ [])

issue-fields : member_of "fields" issue ≡ some (object fields)
unfolding member_of
issue-fields = refl

fields-AreFields : AreFields fields
unfolding member_of or_value IsStatus AreComponents
fields-AreFields = record {
  status = tt;
  issue_type = tt;
  priority = tt;
  project = tt;
  created = tt;
  updated = tt;
  resolved = tt;
  assignee = tt;
  reporter = tt;
  components = (tt, tt);
}

transform_raw_issue_to_clean_lem_example :
    (result : CleanIssue) × (transform_raw_issue_to_clean strptime conversions
        (some "jira")
        (object issue)
      ≡ ok result)
    × (result.external_id ≡ external_id_of conversions (or_value null (member_of "id" issue)))
    × (result.external_key ≡ or_value null (member_of "key" issue))
    × (result.summary ≡ or_value null (member_of "summary" fields))
    × (result.description ≡ or_value null (member_of "description" fields))
    × (result.labels ≡ or_value (list []) (member_of "labels" fields))
    × (result.integration_id ≡ some "jira")
transform_raw_issue_to_clean_lem_example =
    transform_raw_issue_to_clean_lem strptime conversions (some "jira") issue fields issue-fields
      fields-AreFields
