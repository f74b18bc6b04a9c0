-- ===== src/Urls/Accepted.antt =====
-- Which URLs app/services/url_safety.py accepts.
use process_metrics_platform.Common.{◌≡◌, true, false}
use process_metrics_platform.Urls.Validate.{
  Parts, Library, Settings, is_one_of, is_nil, allowed_schemes, allowed_host_patterns,
  is_blocked_ip, fits_patterns, env_flag, host_of, is_local,
}

module _ (lib : Library) (env : Settings) where
  -- Every one of the checks is passed.
  abbrev pub IsSafe : Parts → Type 0
  IsSafe parts =
      (is_nil parts.scheme ≡ false)
      × (is_nil parts.netloc ≡ false)
      × (is_one_of (allowed_schemes lib env) (lib.lower parts.scheme) ≡ true)
      × (is_nil parts.username ≡ true)
      × (is_nil parts.password ≡ true)
      × (is_nil parts.query ≡ true)
      × (is_nil parts.fragment ≡ true)
      × (is_nil (host_of lib parts) ≡ false)
      × (is_local lib env (host_of lib parts) ≡ false)
      × (is_blocked_ip lib (host_of lib parts) (env_flag lib true env.allow_private_ips) ≡ false)
      × (fits_patterns lib (host_of lib parts) (allowed_host_patterns lib env) ≡ true)
