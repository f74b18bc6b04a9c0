-- ===== src/Commitment/Equivalence.antt =====
-- The two ways of pipelines/calculations/commitment_resolver.py to find a rule: one query per
-- board, and one query for all boards with the choice in Python.
use process_metrics_platform.Common.{◌≡◌, String, Option, none, some, Dict}
use process_metrics_platform.Commitment.Rules.{Rule}
use process_metrics_platform.Commitment.Queries.{Columns, join_columns, Found}

-- Both columns of the rule are in the table of columns.
abbrev pub HasColumns : Dict String → Rule → Type 0
HasColumns names rule = (c : Columns) × (join_columns names rule ≡ some c)

-- The columns of the rule that was found, with their names of today.
abbrev pub columns_for : Dict String → Option Rule → Option Columns
columns_for names none = none
columns_for names (some rule) = join_columns names rule

module _ (names : Dict String) (project board code : String) where
  -- What the query finds is the rule and its columns.
  abbrev IsFound : Option Rule → Found → Type 0
  IsFound none found = found ≡ none
  IsFound (some rule) found =
      (c : Columns) × (join_columns names rule ≡ some c) × (found ≡ some (rule, c))
