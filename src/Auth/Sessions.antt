-- ===== src/Auth/Sessions.antt =====
-- Sessions and tokens of app/services/admin_auth.py. `now` is what datetime.now(UTC) returns.
use process_metrics_platform.Common.{
  ℕ, ◌+◌, ◌*◌, String, Bool, true, false, ◌&&◌, Option, none, some, List, [], ◌∷◌, ◌++◌, ltb,
  same_text, str_eq, if◌then◌else◌,
}
use process_metrics_platform.Auth.Base64.{b64url_encode, b64url_decode, is_ascii}
use process_metrics_platform.Strings.{split}
use process_metrics_platform.Auth.Runtime.{
  value_error, type_error, key_error, os_error, runtime_error, attribute_error, Result, ok, raised,
  ◌>>=◌, pos, Json, text, boolean, number, object, no_members, member, member_of, fromtimestamp,
  to_timestamp, Runtime,
}
use process_metrics_platform.Auth.Environment.{
  Env, get_signing_secret, get_ttl_minutes, parse_invalid_before,
}

pub record AdminSession : Type 0 where
  pub user_id : String
  pub email : String
  pub display_name : String
  pub is_admin : Bool
  pub expires_at : ℕ

-- hmac.compare_digest of two texts, which takes ASCII only
unfoldable pub compare_digest : List ℕ → List ℕ → Result Bool
unfolding is_ascii same_text
compare_digest s t = if is_ascii s && is_ascii t then ok (same_text s t) else raised type_error

unfoldable pub header_json : Json
header_json = object (member "alg" (text "HS256") (member "typ" (text "JWT") no_members))

unfoldable pub payload_json : AdminSession → ℕ → Json
unfolding to_timestamp
payload_json s now = object (
    member "sub" (text s.user_id) (
      member "email" (text s.email) (
        member "name" (text s.display_name) (
          member "is_admin" (boolean s.is_admin) (
            member "iat" (number (to_timestamp now))
              (member "exp" (number (to_timestamp s.expires_at)) no_members))))))

-- f"{encoded_header}.{encoded_payload}"
abbrev pub join_dot : List ℕ → List ℕ → List ℕ
join_dot s t = s ++ 46 ∷ t

-- document.get(key): only an object has the method
unfoldable pub get_key : Json → String → Result (Option Json)
unfolding member_of
get_key (object ms) key = ok (member_of key ms)
get_key _ key = raised attribute_error

-- document[key], for what `get` has found to be an object
unfoldable pub required : Option Json → Result Json
required none = raised key_error
required (some j) = ok j

unfoldable pub is_text : Option Json → String → Bool
is_text (some (text t)) s = str_eq t s
is_text _ s = false

-- except (KeyError, TypeError, ValueError, OSError): return None
unfoldable pub or_none : Result (Option AdminSession) → Result (Option AdminSession)
or_none (raised key_error) = ok none
or_none (raised type_error) = ok none
or_none (raised value_error) = ok none
or_none (raised os_error) = ok none
or_none r = r

-- invalid_before and issued_at < invalid_before
unfoldable pub is_before : ℕ → Option ℕ → Bool
is_before issued none = false
is_before issued (some limit) = ltb issued limit

module _ (rt : Runtime) (env : Env) where
  unfoldable pub sign : List ℕ → Result (List ℕ)
  unfolding get_signing_secret b64url_encode
  sign input = do secret ← get_signing_secret env; ok (b64url_encode (rt.digest secret input))

  unfoldable pub serialize : AdminSession → ℕ → Result (List ℕ)
  unfolding header_json payload_json sign
  serialize session now =
      let input =
        join_dot (b64url_encode (rt.dumps header_json))
          (b64url_encode (rt.dumps (payload_json session now))) in
      do signature ← sign input; ok (join_dot input signature)

  -- payload.get("iat", 0)
  unfoldable pub issued_json : Option Json → Json
  issued_json none = number (pos 0)
  issued_json (some j) = j

  unfoldable pub name_of : Option Json → String
  name_of none = ""
  name_of (some j) = rt.str_of j

  unfoldable pub admin_of : Option Json → Bool
  admin_of none = false
  admin_of (some j) = rt.bool_of j

  -- The last part of the second try block: the fields of the session.
  unfoldable pub read_fields : Json → ℕ → Result (Option AdminSession)
  unfolding get_key required name_of admin_of
  read_fields payload expires = do
    sub ← get_key payload "sub" >>= required
    email ← get_key payload "email" >>= required
    name ← get_key payload "name"
    admin ← get_key payload "is_admin"
    ok (
        some (record {
          user_id = rt.str_of sub;
          email = rt.str_of email;
          display_name = name_of name;
          is_admin = admin_of admin;
          expires_at = expires;
        }))

  unfoldable pub after_limit : Json → ℕ → ℕ → Option ℕ → Result (Option AdminSession)
  unfolding read_fields is_before
  after_limit payload issued expires limit =
      if is_before issued limit then ok none else read_fields payload expires

  -- The body of the second try block.
  unfoldable pub read_payload : Json → ℕ → Result (Option AdminSession)
  unfolding get_key issued_json required after_limit
  read_payload payload now = do
    iat ← get_key payload "iat"
    iat_int ← rt.int_of (issued_json iat)
    issued ← fromtimestamp iat_int
    exp ← get_key payload "exp" >>= required
    exp_int ← rt.int_of exp
    expires ← fromtimestamp exp_int
    if ltb expires now
        then ok none
        else (do limit ← parse_invalid_before rt env; after_limit payload issued expires limit)

  unfoldable pub check_header : Json → Json → ℕ → Result (Option AdminSession)
  unfolding is_text or_none read_payload
  check_header header payload now = do
    alg ← get_key header "alg"
    typ ← get_key header "typ"
    if is_text alg "HS256" && is_text typ "JWT" then or_none (read_payload payload now) else ok none

  -- json.loads(_b64url_decode(part)), where none is a ValueError
  unfoldable pub load_part : Option (List ℕ) → Option Json
  load_part none = none
  load_part (some bytes) = rt.loads bytes

  -- The first try block, and what follows it.
  unfoldable pub read_parts : Option Json → Option Json → ℕ → Result (Option AdminSession)
  unfolding check_header
  read_parts (some header) (some payload) now = check_header header payload now
  read_parts _ _ now = ok none

  -- With the comparison of the signatures made.
  unfoldable pub checked : Bool → List ℕ → List ℕ → ℕ → Result (Option AdminSession)
  unfolding read_parts load_part b64url_decode
  checked false header payload now = ok none
  checked true header payload now =
      read_parts (load_part (b64url_decode header)) (load_part (b64url_decode payload)) now

  -- With the expected signature, or the error of a missing secret.
  unfoldable pub with_signature :
      Result (List ℕ) → List ℕ → List ℕ → List ℕ → ℕ → Result (Option AdminSession)
  unfolding checked compare_digest
  with_signature (raised runtime_error) header payload signature now = ok none
  with_signature (raised e) header payload signature now = raised e
  with_signature (ok expected) header payload signature now = do
    same ← compare_digest signature expected
    checked same header payload now

  unfoldable pub three_parts : List (List ℕ) → ℕ → Result (Option AdminSession)
  unfolding with_signature sign
  three_parts (header ∷ payload ∷ signature ∷ []) now =
      with_signature (sign (join_dot header payload)) header payload signature now
  three_parts _ now = ok none

  unfoldable pub deserialize : List ℕ → ℕ → Result (Option AdminSession)
  unfolding three_parts split
  deserialize token now = three_parts (split 46 token) now

  -- datetime.now is read twice: for the expiry, and again for the time of issue.
  unfoldable pub create_access_token : AdminSession → ℕ → ℕ → ℕ → Result (List ℕ × ℕ)
  unfolding serialize get_ttl_minutes
  create_access_token session ttl now issued =
      let expires = now + get_ttl_minutes rt env ttl * 60000000 in
      do token ← serialize (record session { expires_at = expires }) issued; ok (token, expires)

  unfoldable pub get_session : List ℕ → ℕ → Result (Option AdminSession)
  unfolding deserialize
  get_session token now = deserialize token now
