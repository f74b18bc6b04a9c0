-- ===== src/Auth/Ttl.antt =====
-- The lifetime of the tokens of app/services/admin_auth.py.
use process_metrics_platform.Auth.Runtime.{Runtime}
