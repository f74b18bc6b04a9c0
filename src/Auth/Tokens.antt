-- ===== src/Auth/Tokens.antt =====
-- From a session to its token and back, in app/services/admin_auth.py.
use process_metrics_platform.Common.{ℕ, ◌+◌, ◌*◌, ◌≡◌, String, Bool, some, List}
use process_metrics_platform.Auth.Base64.{b64url_encode}
use process_metrics_platform.Auth.Base64.RoundTrip.{AreBytes}
use process_metrics_platform.Auth.Runtime.{ok, ℤ, Json, text, boolean, number, Runtime}
use process_metrics_platform.Auth.Environment.{Env, get_ttl_minutes}
use process_metrics_platform.Auth.Sessions.{AdminSession, header_json, payload_json, join_dot}

-- What hmac, json and Python's conversions promise: bytes are below 256, and the conversions keep
-- what is of their type already.
pub record IsRuntime (rt : Runtime) : Type 0 where
  pub digest_bytes : (secret input : List ℕ) → AreBytes (rt.digest secret input)
  pub dumps_bytes : (j : Json) → AreBytes (rt.dumps j)
  pub int_of_number : (z : ℤ) → rt.int_of (number z) ≡ ok z
  pub str_of_text : (s : String) → rt.str_of (text s) ≡ s
  pub bool_of_boolean : (b : Bool) → rt.bool_of (boolean b) ≡ b

-- The json module reads the document back from its text.
abbrev pub ReadsBack : Runtime → Json → Type 0
ReadsBack rt j = rt.loads (rt.dumps j) ≡ some j

module _ (rt : Runtime) (env : Env) where
  -- The expiry of a new token, and the session that the token is made for.
  abbrev pub expiry : ℕ → ℕ → ℕ
  expiry ttl now = now + get_ttl_minutes rt env ttl * 60000000

  abbrev pub made_for : AdminSession → ℕ → ℕ → AdminSession
  made_for s ttl now = record s { expires_at = expiry ttl now }

module _ (rt : Runtime) (env : Env) (law : IsRuntime rt) where
  -- The first two parts of the session's token.
  abbrev signed_part : Json → List ℕ
  signed_part j = b64url_encode (rt.dumps j)

  abbrev input_of : AdminSession → ℕ → List ℕ
  input_of s issued = join_dot (signed_part header_json) (signed_part (payload_json s issued))

  abbrev token_of : List ℕ → AdminSession → ℕ → List ℕ
  token_of secret s issued =
      join_dot (input_of s issued) (b64url_encode (rt.digest secret (input_of s issued)))
