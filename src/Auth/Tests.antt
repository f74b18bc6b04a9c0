-- ===== src/Auth/Tests.antt =====
-- Tokens, passwords and headers of app/services/admin_auth.py on small values, with a simple
-- signature and a codec for the two documents of one token.
use process_metrics_platform.Common.{
  ℕ, ◌+◌, ◌*◌, ◌%◌, ◌≡◌, ◌≢◌, refl, String, Bool, true, false, Option, none, some, List, [], ◌∷◌,
  arith, ◌==◌, str_eq, codes, length, if◌then◌else◌, same_text,
}
use process_metrics_platform.Auth.Base64.{b64url_encode, b64url_decode, is_ascii}
use process_metrics_platform.Auth.Base64.RoundTrip.{b64url_decode-b64url_encode}
use process_metrics_platform.Strings.{strip, replace_z, is_space}
use process_metrics_platform.Auth.Runtime.{
  type_error, Result, ok, raised, ℤ, pos, Json, text, boolean, number, object, Members, no_members,
  member, epoch, fromtimestamp, naive, Runtime,
}
use process_metrics_platform.Auth.Instants.{whole_second}
use process_metrics_platform.Auth.Environment.{
  Env, get_signing_secret, get_ttl_minutes, parse_invalid_before, setting,
}
use process_metrics_platform.Auth.Sessions.{
  AdminSession, header_json, payload_json, is_before, create_access_token, get_session, join_dot,
}
use process_metrics_platform.Auth.Accepted.{
  IsSigned, IsCurrent, get_session-IsSigned, get_session_raises, get_session_locked,
}
use process_metrics_platform.Auth.Passwords.{verify_password, parse_bearer_token}

abbrev now : ℕ
now = (epoch + 1700000000) * 1000000 + 500000

abbrev session : AdminSession
session = record {
  user_id = "u1";
  email = "a@b.c";
  display_name = "Ann";
  is_admin = true;
  expires_at = 0;
}

abbrev lifetime : ℕ
lifetime = 7200000000

abbrev issued_session : AdminSession
issued_session = record session { expires_at = now + lifetime }

abbrev number_of : Json → Result ℤ
number_of (number z) = ok z
number_of _ = raised type_error

abbrev string_of : Json → String
string_of (text s) = s
string_of _ = ""

abbrev truth_of : Json → Bool
truth_of (boolean b) = b
truth_of _ = false

abbrev dump_members : Members → List ℕ
dump_members no_members = []
dump_members (member k v ms) = if str_eq k "alg" then 1 ∷ [] else 2 ∷ []

abbrev dump : Json → List ℕ
dump (object ms) = dump_members ms
dump _ = []

abbrev load : List ℕ → Option Json
load [] = none
load (b ∷ bs) =
    if b == 1
    then some header_json
    else if b == 2
    then some (payload_json issued_session now)
    else none

abbrev rt : Runtime
rt = record {
  digest = λ secret input. length input % 256 ∷ [];
  dumps = dump;
  loads = load;
  int_of = number_of;
  str_of = string_of;
  bool_of = truth_of;
  parse_int = λ raw. if same_text raw (codes "30") then some (pos 30) else none;
  fromisoformat = λ raw. some (naive now);
}

abbrev unset : Env
unset = record {
  admin_auth_secret = none;
  secret_key = some (codes "s3cret");
  ttl_minutes = none;
  tokens_invalid_before = none;
}

program : Unit {0}
unfolding create_access_token get_session get_signing_secret get_ttl_minutes parse_invalid_before
    header_json payload_json is_before b64url_encode b64url_decode verify_password
    parse_bearer_token is_ascii is_space strip replace_z setting fromtimestamp
program = tt

encode_hello : b64url_encode (codes "hello") ≡ codes "aGVsbG8"
unfolding program
encode_hello = refl

decode_skips : b64url_decode (codes "aG V.sbG8") ≡ some (codes "hello")
unfolding program
decode_skips = refl

decode_short : b64url_decode (codes "a") ≡ none
unfolding program
decode_short = refl

b64url_decode-b64url_encode_example :
    b64url_decode (b64url_encode (codes "hello")) ≡ some (codes "hello")
b64url_decode-b64url_encode_example = b64url_decode-b64url_encode (codes "hello") (ground arith)

abbrev forged : List ℕ
forged = join_dot (codes "AQ") (join_dot (codes "Ag") (233 ∷ []))

get_session_raises_example : get_session rt unset forged now ≡ raised type_error
unfolding program
get_session_raises_example =
    get_session_raises rt unset (codes "s3cret") (codes "AQ") (codes "Ag") (233 ∷ []) now refl
      (ground arith) (ground arith) (ground arith) refl

abbrev made : List ℕ
made = join_dot (codes "AQ") (join_dot (codes "Ag") (codes "BQ"))

get_session-IsSigned_example :
    IsSigned rt unset made
    × IsCurrent rt unset now (record session { expires_at = whole_second (now + lifetime) })
unfolding program
get_session-IsSigned_example =
    get_session-IsSigned rt unset made now
      (record session { expires_at = whole_second (now + lifetime) }) refl

-- A naive time in ADMIN_TOKENS_INVALID_BEFORE.
abbrev naive_limit : Env
naive_limit = record unset { tokens_invalid_before = some (codes "2026-01-01T00:00:00") }

get_session_locked_example : get_session rt naive_limit made now ≢ ok (some session)
unfolding program
get_session_locked_example =
    get_session_locked rt naive_limit now (codes "2026-01-01T00:00:00") made now session refl
      (λ e. ground arith) refl refl

legacy_not_ascii : verify_password (λ plain stored. true) (233 ∷ []) (233 ∷ []) ≡ raised type_error
unfolding program
legacy_not_ascii = refl

abbrev short : Env
short = record unset { ttl_minutes = some (codes "30") }
