-- ===== src/Transform/Validate.antt =====
-- `validate_clean_issue` of pipelines/utils/transformations.py.
use Prim.Native.String.{◌++◌ as join}
use process_metrics_platform.Common.{
  ◌≡◌, ◌↔◌, String, Bool, true, false, not, ◌&&◌, Option, none, some, List, [], ◌∷◌, ◌++◌, arith,
  All, ◌==◌, str_eq, lookup,
}
use process_metrics_platform.Transform.Deduplicate.{
  Value, null, text, number, instant, texts, Issue,
}

-- The truth of a value in a condition; None and a missing field are false.
unfoldable pub is_true : Option Value → Bool
is_true none = false
is_true (some null) = false
is_true (some (text s)) = not (str_eq s "")
is_true (some (number n)) = not (n == 0)
is_true (some (instant t)) = true
is_true (some (texts [])) = false
is_true (some (texts (t ∷ ts))) = true

-- isinstance(value, str)
unfoldable pub is_str : Option Value → Bool
is_str (some (text s)) = true
is_str _ = false

-- value is None or isinstance(value, datetime)
unfoldable pub is_date : Option Value → Bool
is_date none = true
is_date (some null) = true
is_date (some (instant t)) = true
is_date _ = false

-- sp is None or isinstance(sp, (int, float))
unfoldable pub is_numeric : Option Value → Bool
is_numeric none = true
is_numeric (some null) = true
is_numeric (some (number n)) = true
is_numeric _ = false

-- errors.append(message), unless the test succeeds
unfoldable pub unless : Bool → String → List String
unless true message = []
unless false message = message ∷ []

unfoldable pub required_errors : Issue → List String → List String
unfolding unless is_true
required_errors issue [] = []
required_errors issue (field ∷ fields) =
    unless (is_true (lookup field issue)) (join "Missing required field: " field)
    ++ required_errors issue fields

unfoldable pub date_errors : Issue → List String → List String
unfolding unless is_date
date_errors issue [] = []
date_errors issue (field ∷ fields) =
    unless (is_date (lookup field issue)) (join field " must be a datetime object")
    ++ date_errors issue fields

-- if ext_id and not isinstance(ext_id, str)
unfoldable pub id_errors : Option Value → List String
unfolding unless is_true is_str
id_errors ext_id =
    unless (not (is_true ext_id && not (is_str ext_id))) "external_id must be a string"

unfoldable pub issue_errors : Issue → List String
unfolding required_errors id_errors date_errors is_numeric unless
issue_errors issue =
    required_errors issue ("external_id" ∷ "external_key" ∷ "summary" ∷ [])
    ++ (id_errors (lookup "external_id" issue)
        ++ (date_errors issue ("created_at" ∷ "updated_at" ∷ "resolved_at" ∷ [])
            ++ unless (is_numeric (lookup "story_points" issue)) "story_points must be numeric"))

abbrev is_empty : List String → Bool
is_empty [] = true
is_empty (e ∷ es) = false

unfoldable pub validate_clean_issue : Issue → Bool × List String
unfolding issue_errors
validate_clean_issue issue = let errors = issue_errors issue in (is_empty errors, errors)

empty-append : (es fs : List String) → (es ++ fs ≡ []) ↔ ((es ≡ []) × (fs ≡ []))
empty-append [] fs = ground arith
empty-append (e ∷ es) fs = ground arith

unless_iff : (b : Bool) (m : String) → (unless b m ≡ []) ↔ (b ≡ true)
unfolding unless
unless_iff true m = ground arith
unless_iff false m = ground arith

-- The field is there, and true in a condition.
abbrev pub HasField : Issue → String → Type 0
HasField issue field = is_true (lookup field issue) ≡ true

abbrev pub HasDate : Issue → String → Type 0
HasDate issue field = is_date (lookup field issue) ≡ true

required_errors_iff :
    (issue : Issue) (fields : List String)
    → (required_errors issue fields ≡ []) ↔ All (HasField issue) fields
unfolding required_errors
required_errors_iff issue [] = ground arith
required_errors_iff issue (f ∷ fields) =
    let m = join "Missing required field: " f in
    let (a, b) =
      empty-append (unless (is_true (lookup f issue)) m) (required_errors issue fields) in
    let (c, d) = unless_iff (is_true (lookup f issue)) m in
    let (g, h) = required_errors_iff issue fields in
    ((λ e. (c (a e).0, g (a e).1)), λ (x, y). b (d x, h y))

date_errors_iff :
    (issue : Issue) (fields : List String)
    → (date_errors issue fields ≡ []) ↔ All (HasDate issue) fields
unfolding date_errors
date_errors_iff issue [] = ground arith
date_errors_iff issue (f ∷ fields) =
    let m = join f " must be a datetime object" in
    let (a, b) = empty-append (unless (is_date (lookup f issue)) m) (date_errors issue fields) in
    let (c, d) = unless_iff (is_date (lookup f issue)) m in
    let (g, h) = date_errors_iff issue fields in
    ((λ e. (c (a e).0, g (a e).1)), λ (x, y). b (d x, h y))

id_errors_iff : (o : Option Value) → is_true o ≡ true → (id_errors o ≡ []) ↔ (is_str o ≡ true)
unfolding id_errors unless
id_errors_iff o h = ground arith

-- The fields that a clean issue must have, and the types of those that it may have.
abbrev pub IsClean : Issue → Type 0
IsClean issue =
    All (HasField issue) ("external_id" ∷ "external_key" ∷ "summary" ∷ [])
    × (is_str (lookup "external_id" issue) ≡ true)
    × All (HasDate issue) ("created_at" ∷ "updated_at" ∷ "resolved_at" ∷ [])
    × (is_numeric (lookup "story_points" issue) ≡ true)

issue_errors_iff : (issue : Issue) → (issue_errors issue ≡ []) ↔ IsClean issue
unfolding issue_errors
issue_errors_iff issue =
    let fields : List String = "external_id" ∷ "external_key" ∷ "summary" ∷ [] in
    let dates : List String = "created_at" ∷ "updated_at" ∷ "resolved_at" ∷ [] in
    let points = unless (is_numeric (lookup "story_points" issue)) "story_points must be numeric" in
    let id = id_errors (lookup "external_id" issue) in
    let (a, b) =
      empty-append (required_errors issue fields) (id ++ (date_errors issue dates ++ points)) in
    let (c, d) = empty-append id (date_errors issue dates ++ points) in
    let (e, f) = empty-append (date_errors issue dates) points in
    let (g, h) = required_errors_iff issue fields in
    let (k, l) = date_errors_iff issue dates in
    let (m, n) =
      unless_iff (is_numeric (lookup "story_points" issue)) "story_points must be numeric" in
    (
      (λ none_left.
          let (first, rest) = a none_left in
          let (second, later) = c rest in
          let (third, last) = e later in
          let there = g first in
          (there, (id_errors_iff (lookup "external_id" issue) there.0).0 second, k third, m last)),
      λ (there, is_text, dated, numeric). b (
        h there,
        d ((id_errors_iff (lookup "external_id" issue) there.0).1 is_text, f (l dated, n numeric)),
      ),
    )

is_empty_iff : (es : List String) → (is_empty es ≡ true) ↔ (es ≡ [])
is_empty_iff [] = ground arith
is_empty_iff (e ∷ es) = ground arith

-- `validate_clean_issue` says that an issue is valid exactly if it lists no error, and exactly if
-- the issue has an external_id, an external_key and a summary that are not empty, its external_id
-- is a text, each of created_at, updated_at and resolved_at is missing, None or a datetime, and its
-- story_points are missing, None or a number.
pub validate_clean_issue_iff :
    (issue : Issue)
    → (((validate_clean_issue issue).0 ≡ true) ↔ ((validate_clean_issue issue).1 ≡ []))
      × (((validate_clean_issue issue).0 ≡ true) ↔ IsClean issue)
unfolding validate_clean_issue
validate_clean_issue_iff issue =
    let (a, b) = is_empty_iff (issue_errors issue) in
    let (c, d) = issue_errors_iff issue in ((a, b), ((λ e. c (a e)), λ e. b (d e)))
