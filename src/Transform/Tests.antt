-- ===== src/Transform/Tests.antt =====
-- Three issues with two keys, in pipelines/utils/transformations.py.
use process_metrics_platform.Common.{
  ◌≡◌, refl, ◌↔◌, true, false, String, some, List, [], ◌∷◌, In, lookup, insert,
}
use process_metrics_platform.Transform.Deduplicate.{
  Issue, text, instant, null, key_of, deduplicate_issues,
}
use process_metrics_platform.Transform.Validate.{
  validate_clean_issue, IsClean, validate_clean_issue_iff,
}
use process_metrics_platform.Transform.Newest.{IsNewest}
use process_metrics_platform.Transform.Distinct.{AreApart, deduplicate_issues_lem}

abbrev old_issue : Issue
old_issue = ("external_key", text "P-1") ∷ ("updated_at", instant 10) ∷ []

abbrev other_issue : Issue
other_issue = ("external_key", text "P-2") ∷ ("updated_at", null) ∷ []

abbrev new_issue : Issue
new_issue = ("external_key", text "P-1") ∷ ("updated_at", instant 20) ∷ []

abbrev no_key : Issue
no_key = ("external_key", null) ∷ []

abbrev issues : List Issue
issues = old_issue ∷ other_issue ∷ no_key ∷ new_issue ∷ []

deduplicate_issues-three : deduplicate_issues issues "external_key" ≡ new_issue ∷ other_issue ∷ []
unfolding deduplicate_issues key_of lookup insert
deduplicate_issues-three = refl

deduplicate_issues_lem_example :
    AreApart "external_key" (deduplicate_issues issues "external_key")
    × ((kept : Issue)
        → In kept (deduplicate_issues issues "external_key")
        → (key : String) × IsNewest "external_key" (λ x. In x issues) key kept)
    × ((issue : Issue) (key : String)
        → In issue issues
        → key_of "external_key" issue ≡ some key
        → (kept : Issue) × In kept (deduplicate_issues issues "external_key")
          × (key_of "external_key" kept ≡ some key))
deduplicate_issues_lem_example = deduplicate_issues_lem "external_key" issues

abbrev clean : Issue
clean =
    ("external_id", text "10001")
    ∷ ("external_key", text "P-1")
    ∷ ("summary", text "Fix it")
    ∷ ("created_at", instant 10)
    ∷ ("resolved_at", null)
    ∷ []

validate_clean : validate_clean_issue clean ≡ (true, [])
unfolding validate_clean_issue lookup
validate_clean = refl

validate_no_key : validate_clean_issue no_key ≡ (
  false,
  "Missing required field: external_id" ∷ "Missing required field: external_key"
      ∷ "Missing required field: summary" ∷ [],
)
unfolding validate_clean_issue lookup
validate_no_key = refl

validate_clean_issue_iff_example :
    (((validate_clean_issue clean).0 ≡ true) ↔ ((validate_clean_issue clean).1 ≡ []))
    × (((validate_clean_issue clean).0 ≡ true) ↔ IsClean clean)
validate_clean_issue_iff_example = validate_clean_issue_iff clean
