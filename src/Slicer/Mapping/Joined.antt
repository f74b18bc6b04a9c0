-- ===== src/Slicer/Mapping/Joined.antt =====
-- What `get_slice_mapping` of pipelines/utils/smart_slicer.py reads from the database.
use process_metrics_platform.Common.{◌≡◌, ◌⊎◌, String, false, Option, none, some}
use process_metrics_platform.Slicer.Graph.{Graph}
use process_metrics_platform.Slicer.Search.{JoinPath, in_graph}
use process_metrics_platform.Slicer.Search.Shortest.{Joins, IsShortest}
use process_metrics_platform.Slicer.Mapping.{join_query, Inspector, Slicer}

module _ {Frame : Type 0} (inspector : Inspector) (read : String → Option Frame) where
  -- The query goes along a shortest join path; or there is none, and nothing is read.
  abbrev pub JoinsTables : Graph → String → String → String → Option Frame → Type 0
  JoinsTables g source target col frame =
      ((p : JoinPath) × IsShortest g source target p × (frame ≡ read (join_query source col p)))
      ⊎ ((frame ≡ none)
          × ((in_graph g source ≡ false)
              ⊎ (in_graph g target ≡ false)
              ⊎ ((w : JoinPath) → ¬ (Joins g source target w))))

  -- The mapping for two tables that differ: nothing where the inspector fails, or else what the
  -- graph of the schema gives.
  abbrev pub Maps : Option Graph → String → String → String → Option Frame → Type 0
  Maps none source target col frame = frame ≡ none
  Maps (some g) source target col frame = JoinsTables g source target col frame
