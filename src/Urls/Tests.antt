-- ===== src/Urls/Tests.antt =====
-- One URL through the checks of app/services/url_safety.py.
use process_metrics_platform.Common.{◌≡◌, refl, none, some, [], codes, same_text, if◌then◌else◌}
use process_metrics_platform.Strings.{strip, split}
use process_metrics_platform.Urls.Validate.{
  Text, Parts, Library, Settings, accepted, refused, scheme_not_allowed, is_localhost,
  validate_and_normalize_instance_url,
}

abbrev parts_of : Text → Text → Parts
parts_of scheme host = record {
  scheme = scheme;
  netloc = host;
  path = codes "/jira/";
  query = [];
  fragment = [];
  username = [];
  password = [];
  hostname = host;
}

-- Two URLs are known to the library; no host is an address.
abbrev lib : Library
lib = record {
  urlsplit = λ s.
      if same_text s (codes "https://a.b/jira/")
      then some (parts_of (codes "https") (codes "a.b"))
      else if same_text s (codes "http://a.b/jira/")
      then some (parts_of (codes "http") (codes "a.b"))
      else some (parts_of (codes "https") (codes "localhost"));
  ip_address = λ s. none;
  fnmatch = same_text;
  lower = λ s. s;
}

abbrev unset : Settings
unset = record {
  allowed_url_schemes = none;
  allowed_host_patterns = none;
  allow_private_ips = none;
  allow_localhost = none;
}

validate-https :
    validate_and_normalize_instance_url lib unset (codes " https://a.b/jira/")
    ≡ accepted (codes "https://a.b/jira")
unfolding validate_and_normalize_instance_url strip split same_text
validate-https = refl

validate-http :
    validate_and_normalize_instance_url lib unset (codes "http://a.b/jira/")
    ≡ refused scheme_not_allowed
unfolding validate_and_normalize_instance_url strip split same_text
validate-http = refl

validate-local :
    validate_and_normalize_instance_url lib unset (codes "https://localhost") ≡ refused is_localhost
unfolding validate_and_normalize_instance_url strip split same_text
validate-local = refl
