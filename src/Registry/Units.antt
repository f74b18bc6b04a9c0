-- ===== src/Registry/Units.antt =====
-- resolve_unit_field of pipelines/utils/metric_registry.py.
pub mod Lookup
use process_metrics_platform.Common.{ℕ, String, Option, none, some}
use process_metrics_platform.Registry.Database.{UnitRow, select_unit}
use process_metrics_platform.Registry.Action.{Value, unit, Action, pure, query, ◌>>=◌, ◌>>◌}
use process_metrics_platform.Registry.Cache.{get_from_cache, set_in_cache}
use process_metrics_platform.Registry.Ids.{unit_key}

-- {"source_field_id": ..., "source_entity": ...} of a row that names a source field
unfoldable pub unit_of_row : Option UnitRow → Option Value
unit_of_row none = none
unit_of_row (some row) = elim row.source_field_id [
  | none ↦ none
  | some field ↦ some (unit field row.source_entity)
]

module _ (clock : ℕ → ℕ) (engine : String) where
  unfoldable pub cached_unit : Option Value → Action (Option Value) → Action (Option Value)
  cached_unit none m = m
  cached_unit (some v) m = pure (some v)

  unfoldable pub resolve_unit_field : String → String → Action (Option Value)
  unfolding cached_unit unit_of_row
  resolve_unit_field pid code = do
    val ← get_from_cache clock (unit_key engine pid code)
    cached_unit val (do
      row ← query (λ db. select_unit db pid code)
      set_in_cache clock (unit_key engine pid code) (unit_of_row row)
      pure (unit_of_row row))
