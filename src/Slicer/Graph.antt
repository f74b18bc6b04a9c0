-- ===== src/Slicer/Graph.antt =====
-- The graph of tables of pipelines/utils/smart_slicer.py. What the database inspector reports is a
-- value: the tables of the schema with their foreign keys.
pub mod Edges
pub mod Symmetric
pub mod Declared
use Prim.Native.String.{◌++◌ as join}
use process_metrics_platform.Common.{
  String, Option, none, some, List, [], ◌∷◌, ◌++◌, str_eq, Dict, lookup, insert, if◌then◌else◌,
}

pub record ForeignKey : Type 0 where
  pub referred_schema : Option String
  pub referred_table : String
  pub constrained_columns : List String
  pub referred_columns : List String

pub record Table : Type 0 where
  pub name : String
  pub foreign_keys : List ForeignKey

-- The tuple (neighbour, local column, referred column).
pub record Edge : Type 0 where
  pub table : String
  pub local_col : String
  pub ref_col : String

abbrev pub Graph : Type 0
Graph = Dict (List Edge)

abbrev or_nil : Option (List Edge) → List Edge
or_nil none = []
or_nil (some es) = es

-- graph.get(table, [])
unfoldable pub edges_of : Graph → String → List Edge
edges_of g t = or_nil (lookup t g)

-- if table not in graph: graph[table] = []
unfoldable pub ensure_table : String → Graph → Graph
unfolding edges_of
ensure_table t g = insert t (edges_of g t) g

-- graph[table].append(edge), for a table that is made sure to be there
unfoldable pub append_edge : String → Edge → Graph → Graph
unfolding edges_of
append_edge t e g = insert t (edges_of g t ++ e ∷ []) g

abbrev pub qualified : String → String → String
qualified schema table = join schema (join "." table)

-- fk['referred_schema'] or schema
unfoldable pub schema_of : Option String → String → String
schema_of none schema = schema
schema_of (some s) schema = if str_eq s "" then schema else s

-- One pair of columns: the outbound edge, and the inbound one for the way back.
unfoldable pub link : String → String → String → String → Graph → Graph
unfolding append_edge
link full referred local ref g =
    append_edge referred (record { table = full; local_col = ref; ref_col = local })
      (append_edge full (record { table = referred; local_col = local; ref_col = ref }) g)

-- The loop over zip(constrained_columns, referred_columns), which stops with the shorter.
unfoldable pub link_columns : String → String → List String → List String → Graph → Graph
unfolding link
link_columns full referred (l ∷ ls) (r ∷ rs) g =
    link_columns full referred ls rs (link full referred l r g)
link_columns full referred _ _ g = g

unfoldable pub link_keys : String → String → List ForeignKey → Graph → Graph
unfolding link_columns schema_of
link_keys schema full [] g = g
link_keys schema full (fk ∷ fks) g = link_keys schema full fks (
    link_columns full (qualified (schema_of fk.referred_schema schema) fk.referred_table)
      fk.constrained_columns fk.referred_columns g)

unfoldable pub link_tables : String → List Table → Graph → Graph
unfolding link_keys ensure_table
link_tables schema [] g = g
link_tables schema (t ∷ ts) g =
    let full = qualified schema t.name in
    link_tables schema ts (link_keys schema full t.foreign_keys (ensure_table full g))

-- _get_schema_graph, when nothing is cached yet
unfoldable pub build_graph : String → List Table → Graph
unfolding link_tables
build_graph schema tables = link_tables schema tables []
