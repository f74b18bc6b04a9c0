-- ===== src/Slicer/Search.antt =====
-- _find_path of pipelines/utils/smart_slicer.py: breadth-first search over a queue of paths. A
-- path is the list of its edges; the source's lists hold the start table in front of them.
pub mod Walks
pub mod Terminates
pub mod Shortest
use process_metrics_platform.Common.{
  ℕ, zero, suc, ◌+◌, String, Bool, true, false, ◌&&◌, Option, none, some, List, [], ◌∷◌, ◌++◌,
  str_eq, ◌||◌, Dict, lookup, length, if◌then◌else◌,
}
use process_metrics_platform.Slicer.Graph.{Edge, Graph, edges_of}

abbrev pub JoinPath : Type 0
JoinPath = List Edge

-- path[-1][0]
unfoldable pub last_table : String → JoinPath → String
last_table t [] = t
last_table t (e ∷ es) = last_table e.table es

unfoldable pub seen : List String → String → Bool
seen [] t = false
seen (v ∷ vs) t = str_eq v t || seen vs t

pub record Frontier : Type 0 where
  pub queue : List JoinPath
  pub visited : List String

-- One neighbour of the popped path.
unfoldable pub offer : JoinPath → Edge → Frontier → Frontier
unfolding seen
offer path e f =
    if seen f.visited e.table
    then f
    else record { queue = f.queue ++ (path ++ e ∷ []) ∷ []; visited = e.table ∷ f.visited }

unfoldable pub offer_all : JoinPath → List Edge → Frontier → Frontier
unfolding offer
offer_all path [] f = f
offer_all path (e ∷ es) f = offer_all path es (offer path e f)

pub data Outcome : Type 0 where
  found : JoinPath → Outcome
  no_path out_of_fuel : Outcome

module _ (g : Graph) (start end : String) where
  -- The frontier after one path is popped and its neighbours are offered.
  unfoldable pub expand : JoinPath → List JoinPath → List String → Frontier
  unfolding offer_all last_table
  expand path queue visited =
      offer_all path (edges_of g (last_table start path))
        (record { queue = queue; visited = visited })

  -- The while loop.
  unfoldable pub search : ℕ → List JoinPath → List String → Outcome
  unfolding expand last_table
  search zero queue visited = out_of_fuel
  search (suc fuel) [] visited = no_path
  search (suc fuel) (path ∷ queue) visited = elim (str_eq (last_table start path) end) [
    | true ↦ found path
    | false ↦ let f = expand path queue visited in search fuel f.queue f.visited
  ]

unfoldable pub edge_count : Graph → ℕ
edge_count [] = 0
edge_count ((t, es) ∷ g) = length es + edge_count g

unfoldable pub in_graph : Graph → String → Bool
in_graph g t = elim (lookup t g) [ none ↦ false | some _ ↦ true ]

unfoldable pub path_of : Outcome → Option JoinPath
path_of (found path) = some path
path_of no_path = none
path_of out_of_fuel = none

-- Every path that is queued marks a table, the target of an edge, for the first time: two rounds
-- more than there are edges are enough.
unfoldable pub find_path : Graph → String → String → Option JoinPath
unfolding search edge_count in_graph path_of
find_path g start end =
    if in_graph g start && in_graph g end
    then path_of (search g start end (edge_count g + 2) ([] ∷ []) (start ∷ []))
    else none
