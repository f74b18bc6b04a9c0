-- ===== src/Slicer/Search/Shortest.antt =====
-- The path that the search of pipelines/utils/smart_slicer.py returns.
mod Invariant
use process_metrics_platform.Common.{
  ℕ, ◌≤◌, ◌<◌, String, ◌≡◌, Bool, Option, List, ◌∷◌, ◌++◌, length,
}
use process_metrics_platform.Slicer.Graph.{Edge, Graph}
use process_metrics_platform.Slicer.Search.{
  JoinPath, last_table, Outcome, found, no_path, out_of_fuel,
}
use process_metrics_platform.Slicer.Graph.Edges.{EdgeAt}
use process_metrics_platform.Slicer.Search.Walks.{IsWalk}
use Invariant.{Inv}

-- The walk leads from `start` to `end`.
abbrev pub Joins : Graph → String → String → JoinPath → Type 0
Joins g start end w = IsWalk g start w × (last_table start w ≡ end)

-- It joins the tables, and no walk that does has fewer edges.
abbrev pub IsShortest : Graph → String → String → JoinPath → Type 0
IsShortest g start end p =
    Joins g start end p × ((w : JoinPath) → Joins g start end w → length p ≤ length w)

module _ (g : Graph) (start end : String) where
  abbrev Correct : Outcome → Type 0
  Correct (found p) = IsShortest g start end p
  Correct no_path = (w : JoinPath) → ¬ (Joins g start end w)
  Correct out_of_fuel = Unit {0}

  -- The invariant with the first path of the queue at the level.
  record Ready (path : JoinPath) (queue : List JoinPath) (visited : List String) : Type 0 where
    level : ℕ
    now : List JoinPath
    next : List JoinPath
    done : List String
    split : queue ≡ now ++ next
    inv : Inv g start end level (path ∷ now) next done visited
