-- ===== src/Auth/Environment.antt =====
-- The settings that app/services/admin_auth.py reads with os.getenv.
use process_metrics_platform.Common.{ℕ, Option, none, some, List, [], ◌∷◌, ltb, if◌then◌else◌}
use process_metrics_platform.Strings.{strip, replace_z}
use process_metrics_platform.Auth.Runtime.{
  value_error, type_error, runtime_error, Result, ok, raised, ℤ, pos, negsuc, fromtimestamp, Iso,
  aware, naive, Runtime,
}

pub record Env : Type 0 where
  pub admin_auth_secret : Option (List ℕ)
  pub secret_key : Option (List ℕ)
  pub ttl_minutes : Option (List ℕ)
  pub tokens_invalid_before : Option (List ℕ)

abbrev pub default_ttl : ℕ
default_ttl = 120

-- The value of a setting, or "" where there is none.
unfoldable pub setting : Option (List ℕ) → List ℕ
setting none = []
setting (some value) = value

-- The first secret that is set and not empty.
unfoldable pub first_secret : List ℕ → List ℕ → Result (List ℕ)
first_secret (c ∷ cs) key = ok (c ∷ cs)
first_secret [] (c ∷ cs) = ok (c ∷ cs)
first_secret [] [] = raised runtime_error

unfoldable pub get_signing_secret : Env → Result (List ℕ)
unfolding first_secret setting
get_signing_secret env = first_secret (setting env.admin_auth_secret) (setting env.secret_key)

-- max(5, min(ttl, 24 * 60))
unfoldable pub clamp : ℤ → ℕ
clamp (pos n) = if ltb n 5 then 5 else if ltb 1440 n then 1440 else n
clamp (negsuc n) = 5

module _ (rt : Runtime) where
  unfoldable pub ttl_of : ℕ → Option ℤ → ℕ
  unfolding clamp
  ttl_of default none = default
  ttl_of default (some ttl) = clamp ttl

  unfoldable pub get_ttl_minutes : Env → ℕ → ℕ
  unfolding ttl_of
  get_ttl_minutes env default = elim env.ttl_minutes [
    | none ↦ default
    | some raw ↦ ttl_of default (rt.parse_int raw)
  ]

  -- The second attempt: an ISO datetime. A naive one reaches `parsed.replace(tz=UTC)`; replace has
  -- no parameter of that name and raises TypeError.
  unfoldable pub iso_instant : Option Iso → Result (Option ℕ)
  iso_instant none = ok none
  iso_instant (some (aware t)) = ok (some t)
  iso_instant (some (naive t)) = raised type_error

  -- The first attempt, and what ValueError makes of it; other errors leave the function.
  unfoldable pub or_iso : Result ℕ → List ℕ → Result (Option ℕ)
  unfolding iso_instant
  or_iso (ok t) raw = ok (some t)
  or_iso (raised value_error) raw = iso_instant (rt.fromisoformat (replace_z raw))
  or_iso (raised e) raw = raised e

  unfoldable pub unix_instant : Option ℤ → Result ℕ
  unix_instant none = raised value_error
  unix_instant (some n) = fromtimestamp n

  unfoldable pub parse_raw : List ℕ → Result (Option ℕ)
  unfolding or_iso unix_instant
  parse_raw [] = ok none
  parse_raw (c ∷ cs) = or_iso (unix_instant (rt.parse_int (c ∷ cs))) (c ∷ cs)

  unfoldable pub parse_invalid_before : Env → Result (Option ℕ)
  unfolding parse_raw setting
  parse_invalid_before env = parse_raw (strip (setting env.tokens_invalid_before))
