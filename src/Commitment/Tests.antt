-- ===== src/Commitment/Tests.antt =====
-- Commitment rules of pipelines/calculations/commitment_resolver.py for one board.
use process_metrics_platform.Common.{
  ◌≡◌, refl, ◌⊎◌, String, false, Option, none, some, List, [], ◌∷◌, All, Dict, lookup,
}
use process_metrics_platform.Commitment.Rules.{Rule, applies, resolve_rule_from_cache}
use process_metrics_platform.Commitment.Queries.{
  RuleRow, load_commitment_rules_for_calc, resolve_commitment_columns,
}
use process_metrics_platform.Commitment.Best.{IsBest, resolve_rule_from_cache_lem}

abbrev rule_for : String → Option String → Option String → Rule
rule_for id project board = record {
  commitment_rule_id = id;
  project_id = project;
  board_id = board;
  start_column_id = "doing";
  end_column_id = "done";
}

abbrev row_for : Rule → RuleRow
row_for rule = record { calc_code = "lead_time"; rule = rule }

abbrev rows : List RuleRow
rows =
    row_for (rule_for "r1" none none)
    ∷ row_for (rule_for "r2" none (some "b1"))
    ∷ row_for (rule_for "r3" (some "p1") none)
    ∷ row_for (rule_for "r4" (some "p1") (some "b2"))
    ∷ row_for (rule_for "r5" (some "p1") none)
    ∷ []

abbrev names : Dict String
names = ("doing", "In Progress") ∷ ("done", "Done") ∷ []

program : Unit {0}
unfolding resolve_rule_from_cache resolve_commitment_columns load_commitment_rules_for_calc applies
    lookup
program = tt

project_wins :
    resolve_rule_from_cache (load_commitment_rules_for_calc rows "lead_time") "p1" "b1"
    ≡ some (rule_for "r3" (some "p1") none)
unfolding program
project_wins = refl

board_wins :
    resolve_rule_from_cache (load_commitment_rules_for_calc rows "lead_time") "p2" "b1"
    ≡ some (rule_for "r2" none (some "b1"))
unfolding program
board_wins = refl

other_calculation :
    resolve_rule_from_cache (load_commitment_rules_for_calc rows "velocity") "p1" "b1" ≡ none
unfolding program
other_calculation = refl

abbrev loaded : List Rule
loaded = load_commitment_rules_for_calc rows "lead_time"

resolve_rule_from_cache_lem_example :
    ((resolve_rule_from_cache loaded "p1" "b1" ≡ none)
      × All (λ r. applies "p1" "b1" r ≡ false) loaded)
    ⊎ ((rule : Rule) × (resolve_rule_from_cache loaded "p1" "b1" ≡ some rule)
        × IsBest "p1" "b1" loaded rule)
resolve_rule_from_cache_lem_example = resolve_rule_from_cache_lem "p1" "b1" loaded
