-- ===== src/Slicer/Mapping.antt =====
-- `get_slice_mapping` of pipelines/utils/smart_slicer.py: the query that maps the rows of a table to
-- the values of a column of another one. Errors of the inspector and of the database are none.
pub mod Joined
use Prim.Native.Char.{Char, code}
use Prim.Native.String.{◌∷◌ as scons, ◌++◌ as join}
use process_metrics_platform.Common.{
  ℕ, zero, suc, ◌+◌, ◌/◌, ◌%◌, String, Bool, true, false, ◌||◌, Option, none, some, List, [], ◌∷◌,
  ltb, str_eq, ◌==◌, length, Dict, lookup, insert, if◌then◌else◌,
}
use process_metrics_platform.Slicer.Graph.{Table, Edge, Graph, qualified, build_graph}
use process_metrics_platform.Slicer.Search.{JoinPath, find_path}

abbrev onto_first : Char → List String → List String
onto_first c [] = scons c "" ∷ []
onto_first c (part ∷ parts) = scons c part ∷ parts

-- s.split(".")
unfoldable pub split_dots : String → List String
split_dots String.[] = "" ∷ []
split_dots (String.◌∷◌ c s) =
    let parts = split_dots s in if code c == 46 then "" ∷ parts else onto_first c parts

abbrev digit : ℕ → String
digit n =
    if n == 0
    then "0"
    else if n == 1
    then "1"
    else if n == 2
    then "2"
    else if n == 3
    then "3"
    else if n == 4
    then "4"
    else if n == 5
    then "5"
    else if n == 6
    then "6"
    else if n == 7
    then "7"
    else if n == 8
    then "8"
    else "9"

-- The decimal digits of n in front of `tail`; a number has fewer digits than suc n.
unfoldable pub decimal_on : ℕ → ℕ → String → String
decimal_on zero n tail = tail
decimal_on (suc fuel) n tail =
    let rest = decimal_on fuel (n / 10) (join (digit (n % 10)) tail) in
    if ltb n 10 then join (digit n) tail else rest

unfoldable pub decimal : ℕ → String
unfolding decimal_on
decimal n = decimal_on (suc n) n ""

-- f"t{i}"
abbrev pub alias : ℕ → String
alias i = join "t" (decimal i)

-- The query for a column of the table itself.
unfoldable pub direct_query : String → String → String
direct_query source col =
    join "SELECT CAST(id AS TEXT) AS source_id, " (join col (join " AS slice_value FROM " source))

-- f"JOIN {next_table} t{i + 1} ON t{i}.{local_col} = t{i + 1}.{ref_col}", each after a space
unfoldable pub join_clauses : ℕ → JoinPath → String
unfolding decimal
join_clauses i [] = ""
join_clauses i (e ∷ es) = join " JOIN " (
    join e.table (
      join " " (
        join (alias (i + 1)) (
          join " ON " (
            join (alias i) (
              join "." (
                join e.local_col (
                  join " = " (
                    join (alias (i + 1))
                      (join "." (join e.ref_col (join_clauses (i + 1) es))))))))))))

unfoldable pub join_query : String → String → JoinPath → String
unfolding join_clauses decimal
join_query source col path = join "SELECT CAST(t0.id AS TEXT) AS source_id, " (
    join (alias (length path)) (
      join "." (
        join col (
          join " AS slice_value"
            (join " FROM " (join source (join " t0" (join_clauses 0 path))))))))

-- What SQLAlchemy's inspector reports, by schema, and by schema and table.
pub record Inspector : Type 0 where
  pub tables : String → Option (List Table)
  pub columns : String → String → Option (List String)

pub record Slicer : Type 0 where
  pub schema_cache : Option Graph
  pub columns_cache : Dict (List String)

unfoldable pub has_column : List String → String → Bool
has_column [] col = false
has_column (c ∷ cs) col = str_eq c col || has_column cs col

module _ (inspector : Inspector) where
  unfoldable pub inspect_graph : Option (List Table) → Slicer → Option Graph × Slicer
  inspect_graph none s = (none, s)
  inspect_graph (some tables) s =
      let graph = build_graph "clean_jira" tables in
      (some graph, record s { schema_cache = some graph })

  unfoldable pub get_schema_graph : Slicer → Option Graph × Slicer
  unfolding inspect_graph
  get_schema_graph s = elim s.schema_cache [
    | some graph ↦ (some graph, s)
    | none ↦ inspect_graph (inspector.tables "clean_jira") s
  ]

  unfoldable pub inspect_columns : String → Option (List String) → Slicer → List String × Slicer
  inspect_columns full none s = ([], s)
  inspect_columns full (some cols) s =
      (cols, record s { columns_cache = insert full cols s.columns_cache })

  unfoldable pub get_table_columns : String → String → Slicer → List String × Slicer
  unfolding inspect_columns
  get_table_columns schema table s = elim (lookup (qualified schema table) s.columns_cache) [
    | some cols ↦ (cols, s)
    | none ↦ inspect_columns (qualified schema table) (inspector.columns schema table) s
  ]

  -- pl.read_database(query, conn), which gives a data frame or raises
  module _ {Frame : Type 0} (read_database : String → Option Frame) where
    -- `if not path` holds of None and of the empty path.
    unfoldable pub read_path : String → String → Option JoinPath → Option Frame
    unfolding join_query
    read_path source col none = none
    read_path source col (some []) = none
    read_path source col (some (e ∷ es)) = read_database (join_query source col (e ∷ es))

    unfoldable pub read_joined :
        String → String → String → Option Graph × Slicer → Option Frame × Slicer
    unfolding find_path read_path
    read_joined source target col (none, s) = (none, s)
    read_joined source target col (some graph, s) =
        (read_path source col (find_path graph source target), s)

    -- From the validation of the columns on.
    unfoldable pub read_column :
        String → String → String → List String × Slicer → Option Frame × Slicer
    unfolding has_column read_joined get_schema_graph direct_query
    read_column source target col (cols, s) =
        if has_column cols col
        then (if str_eq source target
            then (read_database (direct_query source col), s)
            else read_joined source target col (get_schema_graph s))
        else (none, s)

    unfoldable pub map_parts : String → List String → Slicer → Option Frame × Slicer
    unfolding read_column get_table_columns
    map_parts source (schema ∷ table ∷ col ∷ rest) s =
        read_column source (qualified schema table) col (get_table_columns schema table s)
    map_parts source _ s = (none, s)

    unfoldable pub get_slice_mapping : String → String → Slicer → Option Frame × Slicer
    unfolding map_parts split_dots
    get_slice_mapping source target_column s = map_parts source (split_dots target_column) s
