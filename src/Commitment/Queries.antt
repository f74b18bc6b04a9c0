-- ===== src/Commitment/Queries.antt =====
-- The statements of `load_commitment_rules_for_calc` and `resolve_commitment_columns`
-- (pipelines/calculations/commitment_resolver.py), on the rows of metrics.commitment_rules.
use process_metrics_platform.Common.{
  String, ◌&&◌, Option, none, some, List, [], ◌∷◌, str_eq, Dict, lookup, if◌then◌else◌,
}
use process_metrics_platform.Commitment.Rules.{Rule, applies, score_of, below}

-- A row: its rule, and the code of the calculation that it is for.
pub record RuleRow : Type 0 where
  pub calc_code : String
  pub rule : Rule

-- WHERE c.calc_code = :calc_code
unfoldable pub load_commitment_rules_for_calc : List RuleRow → String → List Rule
load_commitment_rules_for_calc [] code = []
load_commitment_rules_for_calc (row ∷ rows) code =
    let rest = load_commitment_rules_for_calc rows code in
    if str_eq row.calc_code code then row.rule ∷ rest else rest

pub record Columns : Type 0 where
  pub rule_id : String
  pub start_id : String
  pub end_id : String
  pub start_name : String
  pub end_name : String

-- The two joins with clean_jira.board_columns, whose names are kept by id: a rule whose columns
-- are not both there gives no row.
unfoldable pub join_columns : Dict String → Rule → Option Columns
join_columns names rule = elim (lookup rule.start_column_id names) [
  | none ↦ none
  | some start_name ↦ elim (lookup rule.end_column_id names) [
    | none ↦ none
    | some end_name ↦ some (record {
      rule_id = rule.commitment_rule_id;
      start_id = rule.start_column_id;
      end_id = rule.end_column_id;
      start_name = start_name;
      end_name = end_name;
    })
  ]
]

abbrev pub Found : Type 0
Found = Option (Rule × Columns)

-- ORDER BY project_id NULLS LAST, board_id NULLS LAST LIMIT 1: of the rows that are left, whose
-- scopes are the one asked for or NULL, a row gives way to a later one with more scopes that are
-- not NULL, the project's before the board's.
unfoldable pub order_first : Rule × Columns → Found → Found
unfolding below score_of
order_first row none = some row
order_first row (some other) =
    if below (score_of row.0) (score_of other.0) then some other else some row

abbrev pub offer_row : Rule → Option Columns → Found → Found
offer_row rule none rest = rest
offer_row rule (some columns) rest = order_first (rule, columns) rest

unfoldable pub select_rule : List RuleRow → Dict String → String → String → String → Found
unfolding order_first join_columns applies
select_rule [] names project board code = none
select_rule (row ∷ rows) names project board code =
    let rest = select_rule rows names project board code in
    if str_eq row.calc_code code && applies project board row.rule
    then offer_row row.rule (join_columns names row.rule) rest
    else rest

abbrev pub columns_of : Found → Option Columns
columns_of none = none
columns_of (some (rule, columns)) = some columns

unfoldable pub resolve_commitment_columns :
    List RuleRow → Dict String → String → String → String → Option Columns
unfolding select_rule
resolve_commitment_columns rows names project board code =
    columns_of (select_rule rows names project board code)
