-- ===== src/Urls/Validate.antt =====
-- The checks of app/services/url_safety.py. A text is the list of its code points. `Library` holds
-- the functions of urllib.parse, ipaddress and fnmatch, and `str.lower`; a none is a ValueError.
use process_metrics_platform.Common.{
  ℕ, Bool, true, false, not, ◌&&◌, ◌||◌, Option, none, some, List, [], ◌∷◌, ◌++◌, ◌==◌, codes,
  same_text, if◌then◌else◌,
}
use process_metrics_platform.Strings.{split, strip}

abbrev pub Text : Type 0
Text = List ℕ

-- What urlsplit returns; an absent part is the empty text, as in a condition.
pub record Parts : Type 0 where
  pub scheme : Text
  pub netloc : Text
  pub path : Text
  pub query : Text
  pub fragment : Text
  pub username : Text
  pub password : Text
  pub hostname : Text

pub record Address : Type 0 where
  pub is_loopback : Bool
  pub is_link_local : Bool
  pub is_multicast : Bool
  pub is_unspecified : Bool
  pub is_private : Bool
  pub is_reserved : Bool

pub record Library : Type 0 where
  pub urlsplit : Text → Option Parts
  pub ip_address : Text → Option Address
  pub fnmatch : Text → Text → Bool
  pub lower : Text → Text

-- The settings, by os.getenv.
pub record Settings : Type 0 where
  pub allowed_url_schemes : Option Text
  pub allowed_host_patterns : Option Text
  pub allow_private_ips : Option Text
  pub allow_localhost : Option Text

pub data Refusal : Type 0 where
  is_empty is_malformed not_absolute scheme_not_allowed has_credentials has_query : Refusal
  no_host is_localhost is_blocked no_pattern : Refusal

pub data Verdict : Type 0 where
  accepted : Text → Verdict
  refused : Refusal → Verdict

unfoldable pub is_one_of : List Text → Text → Bool
is_one_of [] s = false
is_one_of (t ∷ ts) s = same_text t s || is_one_of ts s

unfoldable pub is_nil : Text → Bool
is_nil [] = true
is_nil (c ∷ cs) = false

unfoldable pub or_default : Text → Option Text → Text
or_default default none = default
or_default default (some value) = value

-- s.rstrip("/")
unfoldable pub put_before : ℕ → Text → Text
put_before c [] = if c == 47 then [] else c ∷ []
put_before c (d ∷ ds) = c ∷ d ∷ ds

unfoldable pub rstrip_slash : Text → Text
unfolding put_before
rstrip_slash [] = []
rstrip_slash (c ∷ cs) = put_before c (rstrip_slash cs)

-- The checks of the parts in their order, given what each of them finds.
unfoldable pub verdict :
    Bool → Bool → Bool → Bool → Bool → Bool → Bool → Bool → Bool → Bool → Bool → Text → Verdict
verdict no_scheme no_netloc allowed no_user no_password no_query no_fragment no_name local blocked
      fits url =
    if no_scheme || no_netloc
    then refused not_absolute
    else if not allowed
    then refused scheme_not_allowed
    else if not (no_user && no_password)
    then refused has_credentials
    else if not (no_query && no_fragment)
    then refused has_query
    else if no_name
    then refused no_host
    else if local
    then refused is_localhost
    else if blocked
    then refused is_blocked
    else if not fits
    then refused no_pattern
    else accepted url

module _ (lib : Library) where
  -- s.strip().lower() for s in parts if s.strip()
  unfoldable pub lowered : List Text → List Text
  lowered [] = []
  lowered (part ∷ parts) = elim (strip part) [
    | [] ↦ lowered parts
    | c ∷ cs ↦ lib.lower (c ∷ cs) ∷ lowered parts
  ]

  unfoldable pub env_flag : Bool → Option Text → Bool
  unfolding is_one_of
  env_flag default none = default
  env_flag default (some value) =
      is_one_of (codes "1" ∷ codes "true" ∷ codes "yes" ∷ codes "on" ∷ []) (lib.lower (strip value))

  unfoldable pub or_https : List Text → List Text
  or_https [] = codes "https" ∷ []
  or_https (s ∷ ss) = s ∷ ss

  unfoldable pub allowed_schemes : Settings → List Text
  unfolding or_https lowered or_default
  allowed_schemes env =
      or_https (lowered (split 44 (or_default (codes "https") env.allowed_url_schemes)))

  unfoldable pub allowed_host_patterns : Settings → List Text
  unfolding lowered or_default
  allowed_host_patterns env = lowered (split 44 (or_default [] env.allowed_host_patterns))

  unfoldable pub is_blocked_address : Bool → Option Address → Bool
  is_blocked_address allow none = false
  is_blocked_address allow (some ip) =
      (ip.is_loopback || ip.is_link_local || ip.is_multicast || ip.is_unspecified)
      || (not allow && (ip.is_private || ip.is_reserved))

  unfoldable pub is_blocked_ip : Text → Bool → Bool
  unfolding is_blocked_address
  is_blocked_ip host allow = is_blocked_address allow (lib.ip_address host)

  -- any(fnmatch(host, p) for p in patterns)
  unfoldable pub any_match : Text → List Text → Bool
  any_match host [] = false
  any_match host (p ∷ ps) = lib.fnmatch host p || any_match host ps

  unfoldable pub fits_patterns : Text → List Text → Bool
  unfolding any_match
  fits_patterns host [] = true
  fits_patterns host (p ∷ ps) = any_match host (p ∷ ps)

  -- (parsed.hostname or "").strip().lower()
  abbrev pub host_of : Parts → Text
  host_of parts = lib.lower (strip parts.hostname)

  abbrev pub is_local : Settings → Text → Bool
  is_local env host =
      not (env_flag false env.allow_localhost)
      && is_one_of (codes "localhost" ∷ codes "localhost.localdomain" ∷ []) host

  abbrev pub normalized : Parts → Text
  normalized parts =
      rstrip_slash (lib.lower parts.scheme ++ codes "://" ++ parts.netloc ++ parts.path)

  unfoldable pub check_parts : Settings → Parts → Verdict
  unfolding verdict allowed_schemes allowed_host_patterns is_blocked_ip fits_patterns env_flag
      is_one_of is_nil rstrip_slash
  check_parts env parts =
      let host = host_of parts in
      verdict (is_nil parts.scheme) (is_nil parts.netloc)
        (is_one_of (allowed_schemes env) (lib.lower parts.scheme)) (is_nil parts.username)
        (is_nil parts.password) (is_nil parts.query) (is_nil parts.fragment) (is_nil host)
        (is_local env host) (is_blocked_ip host (env_flag true env.allow_private_ips))
        (fits_patterns host (allowed_host_patterns env)) (normalized parts)

  unfoldable pub check_split : Settings → Option Parts → Verdict
  unfolding check_parts
  check_split env none = refused is_malformed
  check_split env (some parts) = check_parts env parts

  unfoldable pub check_candidate : Settings → Text → Verdict
  unfolding check_split
  check_candidate env [] = refused is_empty
  check_candidate env (c ∷ cs) = check_split env (lib.urlsplit (c ∷ cs))

  unfoldable pub validate_and_normalize_instance_url : Settings → Text → Verdict
  unfolding check_candidate
  validate_and_normalize_instance_url env raw_url = check_candidate env (strip raw_url)
