-- ===== src/Registry/Coherence.antt =====
-- A cache of pipelines/utils/metric_registry.py that agrees with the tables it was filled from.
use process_metrics_platform.Common.{
  ℕ, String, ◌≡◌, ◌⊎◌, false, Option, none, some, arith, str_eq, lookup, lookup-insert, eq-heads_ne,
  eq-append_left, eq_iff, if◌then◌else◌,
}
use process_metrics_platform.Registry.Database.{
  select_calculation, select_definition, select_project,
}
use process_metrics_platform.Registry.Action.{Value, text, Entry, Registry}
use process_metrics_platform.Registry.Cache.{fresh_value, set_in_cache}
use process_metrics_platform.Registry.Ids.{calc_key, def_key, proj_key}

abbrev pub value_of : Option Entry → Option Value
value_of none = none
value_of (some entry) = entry.value

-- What the cache holds under a key, expired or not.
abbrev pub holds : Registry → String → Option Value
holds s key = value_of (lookup key s.cache)

abbrev pub as_text : Option String → Option Value
as_text none = none
as_text (some id) = some (text id)

-- Nothing, or what the database has.
abbrev pub Agrees : Option Value → Option Value → Type 0
Agrees o w = (o ≡ none) ⊎ (o ≡ w)

-- Every id in the cache is the one that the database has.
pub record IsCoherent (s : Registry) : Type 0 where
  pub calculations :
      (code : String) → Agrees (holds s (calc_key code)) (as_text (select_calculation s.db code))
  pub definitions :
      (code : String) → Agrees (holds s (def_key code)) (as_text (select_definition s.db code))
  pub projects :
      (pid : String) → Agrees (holds s (proj_key pid)) (as_text (select_project s.db pid))

-- A read gives what the cache holds, or nothing.
pub fresh_value-Agrees :
    (now : ℕ) (o : Option Entry) (w : Option Value)
    → Agrees (value_of o) w
    → Agrees (fresh_value now o) w
unfolding fresh_value
fresh_value-Agrees now none w h = h
fresh_value-Agrees now (some e) w h = ground arith

-- The clock and the count of statements do not matter.
pub IsCoherent-counts :
    (s : Registry) (reads queries : ℕ)
    → IsCoherent s
    → IsCoherent (record s { reads = reads; queries = queries })
IsCoherent-counts s reads queries c = record {
  calculations = c.calculations;
  definitions = c.definitions;
  projects = c.projects;
}

module _ (clock : ℕ → ℕ) (key : String) where
  pub holds-set_in_cache :
      (value : Option Value) (s : Registry) (j : String)
      → holds (set_in_cache clock key value s).1 j ≡ (if str_eq key j then value else holds s j)
  unfolding set_in_cache
  holds-set_in_cache value s j = rw lookup-insert (ground arith)

calc-ne-def : (a b : String) → str_eq (calc_key a) (def_key b) ≡ false
calc-ne-def a b = eq-heads_ne "c" "d" "alc_id_" a "ef_id_" b (omega arith)

calc-ne-proj : (a b : String) → str_eq (calc_key a) (proj_key b) ≡ false
calc-ne-proj a b = eq-heads_ne "c" "p" "alc_id_" a "roj_agg_id_" b (omega arith)

def-ne-calc : (a b : String) → str_eq (def_key a) (calc_key b) ≡ false
def-ne-calc a b = eq-heads_ne "d" "c" "ef_id_" a "alc_id_" b (omega arith)

def-ne-proj : (a b : String) → str_eq (def_key a) (proj_key b) ≡ false
def-ne-proj a b = eq-heads_ne "d" "p" "ef_id_" a "roj_agg_id_" b (omega arith)

proj-ne-calc : (a b : String) → str_eq (proj_key a) (calc_key b) ≡ false
proj-ne-calc a b = eq-heads_ne "p" "c" "roj_agg_id_" a "alc_id_" b (omega arith)

proj-ne-def : (a b : String) → str_eq (proj_key a) (def_key b) ≡ false
proj-ne-def a b = eq-heads_ne "p" "d" "roj_agg_id_" a "ef_id_" b (omega arith)

module _ (clock : ℕ → ℕ) (s : Registry) (v : Value) (c : IsCoherent s) where
  -- A value read from the database may be stored under its key.
  pub store_calculation :
      (code : String)
      → some v ≡ as_text (select_calculation s.db code)
      → IsCoherent (set_in_cache clock (calc_key code) (some v) s).1
  unfolding set_in_cache
  store_calculation code e = record {
    calculations = λ j. ground (
      arith,
      eq-append_left "calc_id_" code j,
      eq_iff code j,
      c.calculations j,
      holds-set_in_cache clock (calc_key code) (some v) s (calc_key j),
    );
    definitions = λ j. ground (
      arith,
      calc-ne-def code j,
      c.definitions j,
      holds-set_in_cache clock (calc_key code) (some v) s (def_key j),
    );
    projects = λ j. ground (
      arith,
      calc-ne-proj code j,
      c.projects j,
      holds-set_in_cache clock (calc_key code) (some v) s (proj_key j),
    );
  }

  pub store_definition :
      (code : String)
      → some v ≡ as_text (select_definition s.db code)
      → IsCoherent (set_in_cache clock (def_key code) (some v) s).1
  unfolding set_in_cache
  store_definition code e = record {
    calculations = λ j. ground (
      arith,
      def-ne-calc code j,
      c.calculations j,
      holds-set_in_cache clock (def_key code) (some v) s (calc_key j),
    );
    definitions = λ j. ground (
      arith,
      eq-append_left "def_id_" code j,
      eq_iff code j,
      c.definitions j,
      holds-set_in_cache clock (def_key code) (some v) s (def_key j),
    );
    projects = λ j. ground (
      arith,
      def-ne-proj code j,
      c.projects j,
      holds-set_in_cache clock (def_key code) (some v) s (proj_key j),
    );
  }

  pub store_project :
      (pid : String)
      → some v ≡ as_text (select_project s.db pid)
      → IsCoherent (set_in_cache clock (proj_key pid) (some v) s).1
  unfolding set_in_cache
  store_project pid e = record {
    calculations = λ j. ground (
      arith,
      proj-ne-calc pid j,
      c.calculations j,
      holds-set_in_cache clock (proj_key pid) (some v) s (calc_key j),
    );
    definitions = λ j. ground (
      arith,
      proj-ne-def pid j,
      c.definitions j,
      holds-set_in_cache clock (proj_key pid) (some v) s (def_key j),
    );
    projects = λ j. ground (
      arith,
      eq-append_left "proj_agg_id_" pid j,
      eq_iff pid j,
      c.projects j,
      holds-set_in_cache clock (proj_key pid) (some v) s (proj_key j),
    );
  }
