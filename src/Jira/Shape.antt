-- ===== src/Jira/Shape.antt =====
-- The shape of an issue as Jira documents it, which parse_jira_issue of pipelines/utils/__init__.py
-- reads.
use process_metrics_platform.Common.{
  ◌≡◌, refl, ap, String, Bool, true, false, Option, none, some, if◌then◌else◌, List, [], ◌∷◌, All,
}
use process_metrics_platform.Documents.{
  Result, ok, ◌>>=◌, >>=-Returns, Returns, Anything, Json, null, boolean, number, fraction, text,
  array, object, Members, no_members, member, dict, list, elements, member_of,
}
use process_metrics_platform.Documents.Access.{get, or_value, truthy, iterate, Conversions}
use process_metrics_platform.Jira.Datetime.{Datetime, parse_jira_datetime}
use process_metrics_platform.Jira.Issue.{
  part, status_category_of, story_points_of, sprint_of, ParsedIssue, external_id_of,
  component_names, sprint_in, last_sprint, parse_jira_issue, CleanIssue, clean,
  transform_raw_issue_to_clean,
}

-- An object, or null
abbrev pub IsObject : Json → Type 0
IsObject null = Unit
IsObject (object ms) = Unit
IsObject _ = ⊥

-- A text, or null
abbrev pub IsDate : Json → Type 0
IsDate null = Unit
IsDate (text s) = Unit
IsDate _ = ⊥

-- A status, whose category is an object where there is one
unfoldable pub IsStatus : Json → Type 0
unfolding member_of or_value
IsStatus null = Unit
IsStatus (object ms) = IsObject (or_value null (member_of "statusCategory" ms))
IsStatus _ = ⊥

abbrev pub IsComponent : Json → Type 0
IsComponent (object ms) = Unit
IsComponent _ = ⊥

-- A list of objects
unfoldable pub AreComponents : Json → Type 0
unfolding elements
AreComponents (array js) = All IsComponent (elements js)
AreComponents _ = ⊥

-- The fields of an issue, as Jira sends them: the story points, the sprints and the labels may be anything.
pub record AreFields (fields : Members) : Type 0 where
  pub status : IsStatus (or_value (dict []) (member_of "status" fields))
  pub issue_type : IsObject (or_value (dict []) (member_of "issuetype" fields))
  pub priority : IsObject (or_value (dict []) (member_of "priority" fields))
  pub project : IsObject (or_value (dict []) (member_of "project" fields))
  pub created : IsDate (or_value null (member_of "created" fields))
  pub updated : IsDate (or_value null (member_of "updated" fields))
  pub resolved : IsDate (or_value null (member_of "resolutiondate" fields))
  pub assignee : IsObject (or_value (dict []) (member_of "assignee" fields))
  pub reporter : IsObject (or_value (dict []) (member_of "reporter" fields))
  pub components : AreComponents (or_value (list []) (member_of "components" fields))

part-Returns : (j : Json) (key : String) → IsObject j → Returns Anything (part j key)
unfolding part truthy get
part-Returns null key i = record { value = null; is = refl; has = tt }
part-Returns (object no_members) key i = record { value = null; is = refl; has = tt }
part-Returns (object (member k v ms)) key i = record {
  value = or_value null (member_of key (member k v ms));
  is = refl;
  has = tt;
}
part-Returns (boolean b) key i = absurd i
part-Returns (number z) key i = absurd i
part-Returns (fraction m e) key i = absurd i
part-Returns (text s) key i = absurd i
part-Returns (array js) key i = absurd i

status-Returns : (j : Json) → IsStatus j → Returns Anything (status_category_of j)
unfolding status_category_of part truthy get IsStatus
status-Returns null i = record { value = null; is = refl; has = tt }
status-Returns (object no_members) i = record { value = null; is = refl; has = tt }
status-Returns (object (member k v ms)) i =
    part-Returns (or_value null (member_of "statusCategory" (member k v ms))) "key" i
status-Returns (boolean b) i = absurd i
status-Returns (number z) i = absurd i
status-Returns (fraction m e) i = absurd i
status-Returns (text s) i = absurd i
status-Returns (array js) i = absurd i

status-IsObject : (j : Json) → IsStatus j → IsObject j
unfolding IsStatus
status-IsObject null i = tt
status-IsObject (object ms) i = tt
status-IsObject (boolean b) i = absurd i
status-IsObject (number z) i = absurd i
status-IsObject (fraction m e) i = absurd i
status-IsObject (text s) i = absurd i
status-IsObject (array js) i = absurd i

sprint_in-Returns : (j : Json) → Returns Anything (sprint_in j)
unfolding sprint_in get
sprint_in-Returns null = record { value = none; is = refl; has = tt }
sprint_in-Returns (boolean b) = record { value = none; is = refl; has = tt }
sprint_in-Returns (number z) = record { value = none; is = refl; has = tt }
sprint_in-Returns (fraction m e) = record { value = none; is = refl; has = tt }
sprint_in-Returns (text s) = record { value = some (null, text s); is = refl; has = tt }
sprint_in-Returns (array js) = record { value = none; is = refl; has = tt }
sprint_in-Returns (object ms) = record { value = _; is = refl; has = tt }

last_sprint-Returns : (js : List Json) → Returns Anything (last_sprint js)
unfolding last_sprint
last_sprint-Returns [] = record { value = some (null, null); is = refl; has = tt }
last_sprint-Returns (j ∷ []) = sprint_in-Returns j
last_sprint-Returns (j ∷ (k ∷ js)) = last_sprint-Returns (k ∷ js)

sprint-Returns : (j : Json) → Returns Anything (sprint_of j)
unfolding sprint_of
sprint-Returns null = record { value = some (null, null); is = refl; has = tt }
sprint-Returns (boolean b) = record { value = some (null, null); is = refl; has = tt }
sprint-Returns (number z) = record { value = some (null, null); is = refl; has = tt }
sprint-Returns (fraction m e) = record { value = some (null, null); is = refl; has = tt }
sprint-Returns (text s) = record { value = some (null, null); is = refl; has = tt }
sprint-Returns (array js) = last_sprint-Returns (elements js)
sprint-Returns (object ms) = record { value = some (null, null); is = refl; has = tt }

names-Returns : (js : List Json) → All IsComponent js → Returns Anything (component_names js)
unfolding component_names get
names-Returns [] all = record { value = []; is = refl; has = tt }
names-Returns (object ms ∷ js) (i, all) =
    >>=-Returns Anything Anything (component_names js) _ (names-Returns js all)
      (λ names _. record { value = _; is = refl; has = tt })
names-Returns (null ∷ js) (i, all) = absurd i
names-Returns (boolean b ∷ js) (i, all) = absurd i
names-Returns (number z ∷ js) (i, all) = absurd i
names-Returns (fraction m e ∷ js) (i, all) = absurd i
names-Returns (text s ∷ js) (i, all) = absurd i
names-Returns (array ks ∷ js) (i, all) = absurd i

iterate-Returns : (j : Json) → AreComponents j → Returns (All IsComponent) (iterate j)
unfolding iterate AreComponents
iterate-Returns (array js) all = record { value = elements js; is = refl; has = all }
iterate-Returns null i = absurd i
iterate-Returns (boolean b) i = absurd i
iterate-Returns (number z) i = absurd i
iterate-Returns (fraction m e) i = absurd i
iterate-Returns (text s) i = absurd i
iterate-Returns (object ms) i = absurd i

if-Returns : {A : Type 0} (b : Bool) (x y : A) → Returns Anything (if b then ok x else ok y)
if-Returns true x y = record { value = x; is = refl; has = tt }
if-Returns false x y = record { value = y; is = refl; has = tt }

step :
    {A B : Type 0} {Q : B → Type 0} {r : Result A} {f : A → Result B}
    → Returns Anything r
    → ((a : A) → Returns Q (f a))
    → Returns Q (r >>= f)
step {A} {B} {Q} {r} {f} i h = >>=-Returns Anything Q r f i (λ a _. h a)

step_on :
    {A B : Type 0} {P : A → Type 0} {Q : B → Type 0} {r : Result A} {f : A → Result B}
    → Returns P r
    → ((a : A) → P a → Returns Q (f a))
    → Returns Q (r >>= f)
step_on {A} {B} {P} {Q} {r} {f} i h = >>=-Returns P Q r f i h

module _ (strptime : String → String → Option Datetime) (c : Conversions) where
  date-Returns : (j : Json) → IsDate j → Returns Anything (parse_jira_datetime strptime j)
  unfolding parse_jira_datetime truthy
  date-Returns null i = record { value = none; is = refl; has = tt }
  date-Returns (text s) i = if-Returns _ _ _
  date-Returns (boolean b) i = absurd i
  date-Returns (number z) i = absurd i
  date-Returns (fraction m e) i = absurd i
  date-Returns (array js) i = absurd i
  date-Returns (object ms) i = absurd i

  -- What the parsed issue has of the raw one
  abbrev pub IsParsed : Members → Members → ParsedIssue → Type 0
  unfolding or_value member_of external_id_of
  IsParsed issue fields parsed =
      (parsed.external_id ≡ external_id_of c (or_value null (member_of "id" issue)))
      × (parsed.external_key ≡ or_value null (member_of "key" issue))
      × (parsed.summary ≡ or_value null (member_of "summary" fields))
      × (parsed.description ≡ or_value null (member_of "description" fields))
      × (parsed.labels ≡ or_value (list []) (member_of "labels" fields))

  parse_fields-Returns :
      (issue fields : Members)
      → member_of "fields" issue ≡ some (object fields)
      → AreFields fields
      → Returns (IsParsed issue fields) (parse_jira_issue strptime c (object issue))
  unfolding parse_jira_issue get story_points_of
  parse_fields-Returns issue fields e fit =
      let at : String → Json = λ key. or_value (dict []) (member_of key fields) in
      let date : String → Json = λ key. or_value null (member_of key fields) in
      let listed : String → Json = λ key. or_value (list []) (member_of key fields) in
      rw e (
        step (part-Returns (at "status") "name" (status-IsObject (at "status") fit.status))
          λ status_name. step (status-Returns (at "status") fit.status) λ category.
            step (part-Returns (at "issuetype") "name" fit.issue_type) λ type_name.
              step (part-Returns (at "issuetype") "id" fit.issue_type) λ type_id.
                step (part-Returns (at "priority") "name" fit.priority) λ priority_name.
                  step (part-Returns (at "project") "key" fit.project) λ project_key.
                    step (part-Returns (at "project") "id" fit.project) λ project_id.
                      step (part-Returns (at "project") "name" fit.project) λ project_name.
                        step (date-Returns (date "created") fit.created) λ created_at.
                          step (date-Returns (date "updated") fit.updated) λ updated_at.
                            step (date-Returns (date "resolutiondate") fit.resolved) λ resolved_at.
                              step (part-Returns (at "assignee") "accountId" fit.assignee)
                                λ assignee_id.
                                  step (part-Returns (at "assignee") "displayName" fit.assignee)
                                    λ assignee_name.
                                      step (part-Returns (at "reporter") "accountId" fit.reporter)
                                        λ reporter_id.
                                          step
                                            (part-Returns (at "reporter") "displayName"
                                              fit.reporter)
                                            λ reporter_name.
                                              step (sprint-Returns (listed "customfield_10020"))
                                                λ sprint.
                                                  step_on
                                                    (iterate-Returns (listed "components")
                                                      fit.components)
                                                    λ components are.
                                                      step (names-Returns components are) λ names.
                                                        record {
                                                          value = _;
                                                          is = refl;
                                                          has = (refl, refl, refl, refl, refl);
                                                        })

  -- An issue of the shape that Jira documents is transformed, and never raises: its status, type, priority, project, assignee and
  -- reporter are objects or null (the category of the status, too), its dates are texts or null, in any format, and its
  -- components are a list of objects. The clean issue has the id as a text, the key, the summary, the description and the labels
  -- of the raw one, and the given integration.
  pub transform_raw_issue_to_clean_lem :
      (integration_id : Option String) (issue fields : Members)
      → member_of "fields" issue ≡ some (object fields)
      → AreFields fields
      → (result : CleanIssue) × (transform_raw_issue_to_clean strptime c integration_id
            (object issue)
          ≡ ok result)
        × (result.external_id ≡ external_id_of c (or_value null (member_of "id" issue)))
        × (result.external_key ≡ or_value null (member_of "key" issue))
        × (result.summary ≡ or_value null (member_of "summary" fields))
        × (result.description ≡ or_value null (member_of "description" fields))
        × (result.labels ≡ or_value (list []) (member_of "labels" fields))
        × (result.integration_id ≡ integration_id)
  unfolding transform_raw_issue_to_clean clean
  transform_raw_issue_to_clean_lem integration_id issue fields e fit =
      let parsed = parse_fields-Returns issue fields e fit in
      (
        clean integration_id parsed.value,
        ap (λ r. r >>= λ p. ok (clean integration_id p)) parsed.is,
        parsed.has.0,
        parsed.has.1,
        parsed.has.2,
        parsed.has.3,
        parsed.has.4,
        refl,
      )
