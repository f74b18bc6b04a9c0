-- ===== src/Auth/Instants.antt =====
-- Instants of app/services/admin_auth.py: a token keeps whole seconds.
use process_metrics_platform.Common.{ℕ, ◌+◌, ◌*◌, ◌/◌, ◌≤◌, ◌<◌, ◌≡◌, arith}
use process_metrics_platform.Auth.Runtime.{ok, epoch, fromtimestamp, to_timestamp}

-- The instant without its fraction of a second.
abbrev pub whole_second : ℕ → ℕ
whole_second t = t / 1000000 * 1000000

-- From 1970 to 9999.
abbrev pub IsPresent : ℕ → Type 0
IsPresent t = (epoch * 1000000 ≤ t) × (t < (epoch + 253402300800) * 1000000)

pub fromtimestamp-to_timestamp :
    (t : ℕ) → IsPresent t → fromtimestamp (to_timestamp t) ≡ ok (whole_second t)
unfolding fromtimestamp to_timestamp
fromtimestamp-to_timestamp t h = ground arith
