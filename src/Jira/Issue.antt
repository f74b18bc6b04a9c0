-- ===== src/Jira/Issue.antt =====
-- parse_jira_issue of pipelines/utils/__init__.py, and the clean issue that
-- pipelines/utils/transformations.py makes of it.
use process_metrics_platform.Common.{String, Option, none, some, List, [], ◌∷◌, if◌then◌else◌}
use process_metrics_platform.Documents.{
  Result, ok, ◌>>=◌, Json, null, text, array, object, dict, list, elements,
}
use process_metrics_platform.Documents.Access.{get, truthy, iterate, Conversions, str_of}
use process_metrics_platform.Jira.Datetime.{Datetime, parse_jira_datetime}

-- container.get(key) if container else None
unfoldable pub part : Json → String → Result Json
unfolding get truthy
part container key = if truthy container then get container key null else ok null

unfoldable pub status_category_of : Json → Result Json
unfolding part
status_category_of status = part status "statusCategory" >>= λ category. part category "key"

abbrev or_else : Json → Json → Json
or_else null next = next
or_else j next = j

-- story_points = fields.get(a), or fields.get(b) where that is None
unfoldable pub story_points_of : Json → Result Json
unfolding get
story_points_of fields = do
  first ← get fields "customfield_10016" null
  second ← get fields "customfield_10036" null
  ok (or_else first second)

-- sprint_id and sprint_name; where the last sprint is neither an object nor a text, neither is set.
unfoldable pub sprint_in : Json → Result (Option (Json × Json))
unfolding get
sprint_in (object ms) = do
  id ← get (object ms) "id" null
  name ← get (object ms) "name" null
  ok (some (id, name))
sprint_in (text s) = ok (some (null, text s))
sprint_in _ = ok none

unfoldable pub last_sprint : List Json → Result (Option (Json × Json))
unfolding sprint_in
last_sprint [] = ok (some (null, null))
last_sprint (j ∷ []) = sprint_in j
last_sprint (j ∷ (k ∷ js)) = last_sprint (k ∷ js)

unfoldable pub sprint_of : Json → Result (Option (Json × Json))
unfolding last_sprint elements
sprint_of (array js) = last_sprint (elements js)
sprint_of _ = ok (some (null, null))

abbrev keep_named : Json → List Json → List Json
unfolding truthy
keep_named name names = if truthy name then name ∷ names else names

-- [c.get("name") for c in components if c.get("name")]
unfoldable pub component_names : List Json → Result (List Json)
unfolding get keep_named
component_names [] = ok []
component_names (c ∷ cs) = do
  name ← get c "name" null
  names ← component_names cs
  ok (keep_named name names)

unfoldable pub external_id_of : Conversions → Json → Option String
unfolding str_of
external_id_of c null = none
external_id_of c id = some (str_of c id)

pub record ParsedIssue : Type 0 where
  pub external_id : Option String
  pub external_key : Json
  pub summary : Json
  pub description : Json
  pub status_name : Json
  pub status_category : Json
  pub issue_type_name : Json
  pub issue_type_id : Json
  pub priority_name : Json
  pub project_key : Json
  pub project_id : Json
  pub project_name : Json
  pub created_at : Option Datetime
  pub updated_at : Option Datetime
  pub resolved_at : Option Datetime
  pub assignee_account_id : Json
  pub assignee_display_name : Json
  pub reporter_account_id : Json
  pub reporter_display_name : Json
  pub story_points : Json
  pub sprint : Option (Json × Json)
  pub labels : Json
  pub components : List Json

abbrev id_in : Option (Json × Json) → Json
id_in none = null
id_in (some (id, name)) = id

abbrev name_in : Option (Json × Json) → Json
name_in none = null
name_in (some (id, name)) = name

pub record CleanIssue : Type 0 where
  pub external_id : Option String
  pub external_key : Json
  pub integration_id : Option String
  pub project_external_id : Json
  pub project_external_key : Json
  pub summary : Json
  pub description : Json
  pub status_name : Json
  pub status_category : Json
  pub issue_type_name : Json
  pub issue_type_id : Json
  pub priority_name : Json
  pub assignee_account_id : Json
  pub assignee_display_name : Json
  pub reporter_account_id : Json
  pub reporter_display_name : Json
  pub labels : Json
  pub components : List Json
  pub story_points : Json
  pub sprint_id : Json
  pub sprint_name : Json
  pub created_at : Option Datetime
  pub updated_at : Option Datetime
  pub resolved_at : Option Datetime

unfoldable pub clean : Option String → ParsedIssue → CleanIssue
clean integration_id p = record {
  external_id = p.external_id;
  external_key = p.external_key;
  integration_id = integration_id;
  project_external_id = p.project_id;
  project_external_key = p.project_key;
  summary = p.summary;
  description = p.description;
  status_name = p.status_name;
  status_category = p.status_category;
  issue_type_name = p.issue_type_name;
  issue_type_id = p.issue_type_id;
  priority_name = p.priority_name;
  assignee_account_id = p.assignee_account_id;
  assignee_display_name = p.assignee_display_name;
  reporter_account_id = p.reporter_account_id;
  reporter_display_name = p.reporter_display_name;
  labels = p.labels;
  components = p.components;
  story_points = p.story_points;
  sprint_id = id_in p.sprint;
  sprint_name = name_in p.sprint;
  created_at = p.created_at;
  updated_at = p.updated_at;
  resolved_at = p.resolved_at;
}

module _ (strptime : String → String → Option Datetime) (c : Conversions) where
  unfoldable pub parse_jira_issue : Json → Result ParsedIssue
  unfolding get part status_category_of story_points_of sprint_of component_names external_id_of
      iterate parse_jira_datetime truthy
  parse_jira_issue raw = do
    fields ← get raw "fields" (dict [])
    raw_id ← get raw "id" null
    key ← get raw "key" null
    summary ← get fields "summary" null
    description ← get fields "description" null
    status ← get fields "status" (dict [])
    status_name ← part status "name"
    category ← status_category_of status
    issue_type ← get fields "issuetype" (dict [])
    type_name ← part issue_type "name"
    type_id ← part issue_type "id"
    priority ← get fields "priority" (dict [])
    priority_name ← part priority "name"
    project ← get fields "project" (dict [])
    project_key ← part project "key"
    project_id ← part project "id"
    project_name ← part project "name"
    created ← get fields "created" null
    created_at ← parse_jira_datetime strptime created
    updated ← get fields "updated" null
    updated_at ← parse_jira_datetime strptime updated
    resolved ← get fields "resolutiondate" null
    resolved_at ← parse_jira_datetime strptime resolved
    assignee ← get fields "assignee" (dict [])
    assignee_id ← part assignee "accountId"
    assignee_name ← part assignee "displayName"
    reporter ← get fields "reporter" (dict [])
    reporter_id ← part reporter "accountId"
    reporter_name ← part reporter "displayName"
    story_points ← story_points_of fields
    sprint_field ← get fields "customfield_10020" (list [])
    sprint ← sprint_of sprint_field
    labels ← get fields "labels" (list [])
    given ← get fields "components" (list [])
    components ← iterate given
    names ← component_names components
    ok record {
      external_id = external_id_of c raw_id;
      external_key = key;
      summary = summary;
      description = description;
      status_name = status_name;
      status_category = category;
      issue_type_name = type_name;
      issue_type_id = type_id;
      priority_name = priority_name;
      project_key = project_key;
      project_id = project_id;
      project_name = project_name;
      created_at = created_at;
      updated_at = updated_at;
      resolved_at = resolved_at;
      assignee_account_id = assignee_id;
      assignee_display_name = assignee_name;
      reporter_account_id = reporter_id;
      reporter_display_name = reporter_name;
      story_points = story_points;
      sprint = sprint;
      labels = labels;
      components = names;
    }

  unfoldable pub transform_raw_issue_to_clean : Option String → Json → Result CleanIssue
  unfolding parse_jira_issue clean
  transform_raw_issue_to_clean integration_id raw =
      parse_jira_issue raw >>= λ parsed. ok (clean integration_id parsed)

  unfoldable pub transform_raw_issues_batch : Option String → List Json → Result (List CleanIssue)
  unfolding transform_raw_issue_to_clean
  transform_raw_issues_batch integration_id [] = ok []
  transform_raw_issues_batch integration_id (raw ∷ raws) = do
    issue ← transform_raw_issue_to_clean integration_id raw
    issues ← transform_raw_issues_batch integration_id raws
    ok (issue ∷ issues)
