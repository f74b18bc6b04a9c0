-- ===== src/Commitment/Rules.antt =====
-- `resolve_rule_from_cache` of pipelines/calculations/commitment_resolver.py. An id is the text of
-- a UUID, so one that is there is true in a condition.
use process_metrics_platform.Common.{
  ℕ, String, Bool, true, ◌&&◌, ◌||◌, Option, none, some, List, [], ◌∷◌, ltb, ◌==◌, str_eq,
  if◌then◌else◌,
}

pub record Rule : Type 0 where
  pub commitment_rule_id : String
  pub project_id : Option String
  pub board_id : Option String
  pub start_column_id : String
  pub end_column_id : String

-- scope in (None, id)
unfoldable pub covers : Option String → String → Bool
covers none id = true
covers (some s) id = str_eq s id

abbrev pub Score : Type 0
Score = ℕ × ℕ

-- int(scope is not None)
abbrev pub flag : Option String → ℕ
flag none = 0
flag (some s) = 1

unfoldable pub score_of : Rule → Score
score_of rule = (flag rule.project_id, flag rule.board_id)

-- The order of Python's tuples.
unfoldable pub below : Score → Score → Bool
below (a, b) (c, d) = ltb a c || ((a == c) && ltb b d)

unfoldable pub applies : String → String → Rule → Bool
unfolding covers
applies project board rule = covers rule.project_id project && covers rule.board_id board

-- The loop that collects the candidates, in order.
unfoldable pub candidates : String → String → List Rule → List (Score × Rule)
unfolding applies score_of
candidates project board [] = []
candidates project board (rule ∷ rules) =
    let rest = candidates project board rules in
    if applies project board rule then (score_of rule, rule) ∷ rest else rest

-- One step of the sort: before the candidates that are not above it.
unfoldable pub place : Score × Rule → List (Score × Rule) → List (Score × Rule)
unfolding below
place c [] = c ∷ []
place c (d ∷ ds) = let rest = place c ds in if below c.0 d.0 then d ∷ rest else c ∷ d ∷ ds

-- candidates.sort(key=..., reverse=True), which keeps the order of equal keys
unfoldable pub sort_descending : List (Score × Rule) → List (Score × Rule)
unfolding place
sort_descending [] = []
sort_descending (c ∷ cs) = place c (sort_descending cs)

unfoldable pub first_rule : List (Score × Rule) → Option Rule
first_rule [] = none
first_rule ((score, rule) ∷ rest) = some rule

unfoldable pub resolve_rule_from_cache : List Rule → String → String → Option Rule
unfolding candidates sort_descending first_rule
resolve_rule_from_cache rules project board =
    first_rule (sort_descending (candidates project board rules))
