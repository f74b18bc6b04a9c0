-- ===== src/Metabase/Polling.antt =====
-- The two loops of the provider that wait for Metabase: `while time.time() < deadline`, with a sleep
-- in every round. They run on fuel; a none says that it ran out.
use process_metrics_platform.Common.{
  ℕ, zero, suc, ◌+◌, ◌-◌, ◌*◌, Bool, true, false, Option, none, some, ltb,
}
use process_metrics_platform.Documents.{runtime_error, ℤ, pos, negsuc}
use process_metrics_platform.Metabase.Client.{
  World, Action, pure, raise, ◌>>=◌, ◌>>◌, time, check_health, sleep,
}

-- now + seconds; a deadline in the past is as good as any other.
unfoldable pub later : ℕ → ℤ → ℕ
later now (pos n) = now + n * 1000000
later now (negsuc n) = now - suc n * 1000000

-- A round for every second until the deadline, and one more, since a round sleeps for a second or more.
unfoldable pub rounds : ℤ → ℕ
rounds (pos n) = suc n
rounds (negsuc n) = 1

module _ (w : World) (check : Action Bool) (pause : ℤ) where
  unfoldable pub next : Action (Option Unit) → Bool → Action (Option Unit)
  unfolding sleep
  next again true = pure (some tt)
  next again false = do sleep pause; again

  unfoldable pub round : Action (Option Unit) → Bool → Action (Option Unit)
  unfolding next
  round again true = do done ← check; next again done
  round again false = raise runtime_error

  unfoldable pub wait_until : ℕ → ℕ → Action (Option Unit)
  unfolding round time
  wait_until zero deadline = pure none
  wait_until (suc fuel) deadline = do
    now ← time w
    round (wait_until fuel deadline) (ltb now deadline)

-- MetabaseClient.wait_for_health
unfoldable pub wait_for_health : World → ℤ → Action (Option Unit)
unfolding wait_until time check_health later rounds
wait_for_health w seconds = do
  now ← time w
  wait_until w (check_health w) (pos 3) (rounds seconds) (later now seconds)
