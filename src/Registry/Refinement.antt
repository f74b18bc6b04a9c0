-- ===== src/Registry/Refinement.antt =====
-- The cached lookups of pipelines/utils/metric_registry.py against the tables.
use process_metrics_platform.Common.{
  ℕ, ◌+◌, sym, ap, String, ◌≡◌, refl, Option, none, some, arith, lookup,
}
use process_metrics_platform.Registry.Database.{Database, select_calculation, select_definition}
use process_metrics_platform.Registry.Action.{Value, text, Registry, Result, ok, value_error}
use process_metrics_platform.Registry.Cache.{fresh_value, reads_after, get_from_cache, set_in_cache}
use process_metrics_platform.Registry.Ids.{
  calc_key, def_key, cached_or, store_found, get_calculation_id, get_definition_id,
}
use process_metrics_platform.Registry.Coherence.{
  as_text, IsCoherent, Agrees, fresh_value-Agrees, IsCoherent-counts, store_calculation,
  store_definition,
}

-- The lookup with no cache: the id as text, or ValueError.
abbrev pub uncached : Option String → Result Value
uncached none = value_error
uncached (some id) = ok (text id)

-- An outcome and the state it leaves: the value, the database, and a cache that still agrees.
abbrev pub Gives : Result Value × Registry → Result Value → Database → Type 0
Gives m r db = (m.0 ≡ r) × (m.1.db ≡ db) × IsCoherent m.1

module _ (clock : ℕ → ℕ) where
  -- The three lookups share their shape: what the cache gives, or else the rest.
  cached_or-Gives :
      (r : Option Value) (m : Registry → Result Value × Registry) (s : Registry) (o : Option String)
      → IsCoherent s
      → Agrees r (as_text o)
      → Gives (m s) (uncached o) s.db
      → Gives (cached_or clock r m s) (uncached o) s.db
  unfolding cached_or
  cached_or-Gives none m s o c a g = g
  cached_or-Gives (some v) m s none c a g = absurd (ground arith)
  cached_or-Gives (some v) m s (some id) c a g = (ground arith, refl, c)

  store_calculation-Gives :
      (code : String) (s : Registry) (o : Option String)
      → IsCoherent s
      → select_calculation s.db code ≡ o
      → Gives (store_found clock (calc_key code) o s) (uncached o) s.db
  unfolding store_found set_in_cache
  store_calculation-Gives code s none c e = (refl, refl, c)
  store_calculation-Gives code s (some id) c e =
      (refl, refl, store_calculation clock s (text id) c code (ap as_text (sym e)))

  -- From a cache that agrees with the database, `get_calculation_id` returns what the table has
  -- under the code, or raises ValueError where it has no row; the database stays as it is and the
  -- cache goes on to agree.
  pub get_calculation_id-refines :
      (code : String) (s : Registry)
      → IsCoherent s
      → Gives (get_calculation_id clock code s) (uncached (select_calculation s.db code)) s.db
  unfolding get_calculation_id get_from_cache
  get_calculation_id-refines code s c =
      let now = clock s.reads in
      let o = lookup (calc_key code) s.cache in
      let n = reads_after o s.reads in
      cached_or-Gives (fresh_value now o) _ (record s { reads = n }) _
        (IsCoherent-counts s n s.queries c) (fresh_value-Agrees now o _ (c.calculations code))
        (store_calculation-Gives code (record s { reads = n; queries = s.queries + 1 }) _
          (IsCoherent-counts s n (s.queries + 1) c) refl)

  store_definition-Gives :
      (code : String) (s : Registry) (o : Option String)
      → IsCoherent s
      → select_definition s.db code ≡ o
      → Gives (store_found clock (def_key code) o s) (uncached o) s.db
  unfolding store_found set_in_cache
  store_definition-Gives code s none c e = (refl, refl, c)
  store_definition-Gives code s (some id) c e =
      (refl, refl, store_definition clock s (text id) c code (ap as_text (sym e)))

  -- From a cache that agrees with the database, `get_definition_id` returns what the table of
  -- definitions has under the code, or raises ValueError where it has no row; the database stays
  -- as it is and the cache goes on to agree.
  pub get_definition_id-refines :
      (code : String) (s : Registry)
      → IsCoherent s
      → Gives (get_definition_id clock code s) (uncached (select_definition s.db code)) s.db
  unfolding get_definition_id get_from_cache
  get_definition_id-refines code s c =
      let now = clock s.reads in
      let o = lookup (def_key code) s.cache in
      let n = reads_after o s.reads in
      cached_or-Gives (fresh_value now o) _ (record s { reads = n }) _
        (IsCoherent-counts s n s.queries c) (fresh_value-Agrees now o _ (c.definitions code))
        (store_definition-Gives code (record s { reads = n; queries = s.queries + 1 }) _
          (IsCoherent-counts s n (s.queries + 1) c) refl)
