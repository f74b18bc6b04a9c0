-- ===== src/Transform/Deduplicate.antt =====
-- `deduplicate_issues` of pipelines/utils/transformations.py. An issue is its dictionary; the key
-- field holds a text, and updated_at a datetime, as its number of microseconds.
use process_metrics_platform.Common.{
  ℕ, String, Bool, true, false, Option, none, some, List, [], ◌∷◌, ltb, str_eq, Dict, lookup,
  insert, if◌then◌else◌,
}

-- What a field of an issue holds; None is `null`.
pub data Value : Type 0 where
  null : Value
  text : String → Value
  number : ℕ → Value
  instant : ℕ → Value
  texts : List String → Value

abbrev pub Issue : Type 0
Issue = Dict Value

-- The text of a field that is there, holds a text, and is not empty.
unfoldable pub text_of : Option Value → Option String
text_of (some (text s)) = if str_eq s "" then none else some s
text_of _ = none

-- issue.get(key_field), where it is true in a condition
unfoldable pub key_of : String → Issue → Option String
unfolding text_of
key_of field issue = text_of (lookup field issue)

unfoldable pub instant_of : Option Value → Option ℕ
instant_of (some (instant t)) = some t
instant_of _ = none

-- issue.get("updated_at")
unfoldable pub updated_at : Issue → Option ℕ
unfolding instant_of
updated_at issue = instant_of (lookup "updated_at" issue)

-- new_updated and (not existing_updated or new_updated > existing_updated)
unfoldable pub is_newer : Option ℕ → Option ℕ → Bool
is_newer none existing = false
is_newer (some t) none = true
is_newer (some t) (some u) = ltb u t

-- The branches on `existing`.
unfoldable pub keep_newer : String → Issue → Option Issue → Dict Issue → Dict Issue
unfolding is_newer updated_at
keep_newer key issue none seen = insert key issue seen
keep_newer key issue (some existing) seen =
    if is_newer (updated_at issue) (updated_at existing) then insert key issue seen else seen

-- One round of the loop.
unfoldable pub see : Option String → Issue → Dict Issue → Dict Issue
unfolding keep_newer
see none issue seen = seen
see (some key) issue seen = keep_newer key issue (lookup key seen) seen

unfoldable pub see_all : String → List Issue → Dict Issue → Dict Issue
unfolding see key_of
see_all field [] seen = seen
see_all field (issue ∷ issues) seen = see_all field issues (see (key_of field issue) issue seen)

-- list(seen.values())
unfoldable pub values : Dict Issue → List Issue
values [] = []
values ((key, issue) ∷ seen) = issue ∷ values seen

unfoldable pub deduplicate_issues : List Issue → String → List Issue
unfolding see_all values
deduplicate_issues issues field = values (see_all field issues [])
