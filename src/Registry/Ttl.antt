-- ===== src/Registry/Ttl.antt =====
-- How long the cache of pipelines/utils/metric_registry.py serves a value.
use process_metrics_platform.Common.{ℕ, ◌+◌, ◌<◌, String, ◌≡◌, some, arith, lookup-insert, eq_iff}
use process_metrics_platform.Registry.Database.{Database}
use process_metrics_platform.Registry.Action.{Value, Registry, ok}
use process_metrics_platform.Registry.Cache.{ttl, fresh_value, get_from_cache, set_in_cache}
use process_metrics_platform.Registry.Ids.{calc_key, get_calculation_id}

-- A call that went to the database stores its answer for 300 seconds: until then a second call
-- returns the same id and sends no statement, whatever has become of the database. Here `now` is the
-- number of the clock reading at which the answer was stored, the last one of the first call.
pub get_calculation_id_cached :
    (clock : ℕ → ℕ) (code : String) (s t : Registry) (v : Value) (now : ℕ) (db : Database)
    → get_calculation_id clock code s ≡ (ok v, t)
    → s.queries < t.queries
    → t.reads ≡ now + 1
    → clock t.reads < clock now + 300
    → get_calculation_id clock code (record t { db = db })
      ≡ (ok v, record t { db = db; reads = t.reads + 1 })
unfolding get_calculation_id get_from_cache set_in_cache fresh_value
get_calculation_id_cached clock code s t v now db h q r e = ground (
  arith,
  eq_iff (calc_key code) (calc_key code),
  lookup-insert (calc_key code) (calc_key code)
      (record { value = some v; expires_at = clock now + ttl }) s.cache,
)
