-- ===== src/Registry/Cache.antt =====
-- The cache of pipelines/utils/metric_registry.py. `clock n` is what the n-th call of time.time()
-- returns, in seconds.
use process_metrics_platform.Common.{
  ℕ, ◌+◌, String, Option, none, some, ltb, lookup, insert, [], if◌then◌else◌,
}
use process_metrics_platform.Registry.Action.{Value, Entry, ok, Action}

abbrev pub ttl : ℕ
ttl = 300

-- entry["value"] of an entry that is there and has not expired at `now`
unfoldable pub fresh_value : ℕ → Option Entry → Option Value
fresh_value now none = none
fresh_value now (some entry) = if ltb now entry.expires_at then entry.value else none

-- The test calls time.time() only if the key is there.
unfoldable pub reads_after : Option Entry → ℕ → ℕ
reads_after none n = n
reads_after (some entry) n = n + 1

module _ (clock : ℕ → ℕ) where
  unfoldable pub get_from_cache : String → Action (Option Value)
  unfolding fresh_value reads_after
  get_from_cache key s = (
    ok (fresh_value (clock s.reads) (lookup key s.cache)),
    record s { reads = reads_after (lookup key s.cache) s.reads },
  )

  unfoldable pub set_in_cache : String → Option Value → Action Unit
  set_in_cache key value s =
      let entry : Entry = record { value = value; expires_at = clock s.reads + ttl } in
      (ok tt, record s { cache = insert key entry s.cache; reads = s.reads + 1 })

unfoldable pub clear_cache : Action Unit
clear_cache s = (ok tt, record s { cache = [] })
