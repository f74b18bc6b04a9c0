-- ===== src/Auth/Accepted.antt =====
-- Which tokens app/services/admin_auth.py accepts, and which errors leave it.
use process_metrics_platform.Common.{
  ℕ, ◌≤◌, ◌≡◌, ◌≢◌, refl, Bool, true, false, Option, none, some, List, [], ◌∷◌, arith,
  same_text_iff, subst,
}
use process_metrics_platform.Auth.Base64.{is_ascii}
use process_metrics_platform.Strings.{split, strip, replace_z}
use process_metrics_platform.Auth.Split.{joined-split, joined, split-join_dot, split_part, IsPart}
use process_metrics_platform.Auth.Runtime.{
  type_error, runtime_error, Result, ok, raised, Json, Runtime, naive,
}
use process_metrics_platform.Auth.Environment.{
  Env, get_signing_secret, parse_invalid_before, setting,
}
use process_metrics_platform.Auth.Sessions.{
  AdminSession, or_none, compare_digest, join_dot, is_before, sign, checked, with_signature,
  three_parts, deserialize, get_session, read_payload, check_header, read_parts, read_fields,
  after_limit,
}

module _ (rt : Runtime) (env : Env) where
  read_fields-expires :
      (payload : Json) (expires : ℕ) (s : AdminSession)
      → read_fields rt env payload expires ≡ ok (some s)
      → s.expires_at ≡ expires
  unfolding read_fields
  read_fields-expires payload expires s e = ground arith

  after_limit-expires :
      (payload : Json) (issued expires : ℕ) (limit : Option ℕ) (s : AdminSession)
      → after_limit rt env payload issued expires limit ≡ ok (some s)
      → (s.expires_at ≡ expires) × (is_before issued limit ≡ false)
  unfolding after_limit
  after_limit-expires payload issued expires limit s e =
      ground (arith, read_fields-expires payload expires s)

  -- The session has not ended, and the setting that bounds the time of issue can be read.
  abbrev pub IsCurrent : ℕ → AdminSession → Type 0
  IsCurrent now s =
      (now ≤ s.expires_at) × (limit : Option ℕ) × (parse_invalid_before rt env ≡ ok limit)

  read_payload-IsCurrent :
      (payload : Json) (now : ℕ) (s : AdminSession)
      → read_payload rt env payload now ≡ ok (some s)
      → IsCurrent now s
  unfolding read_payload
  read_payload-IsCurrent payload now s e =
      ground (arith, λ (i x : ℕ) (l : Option ℕ). after_limit-expires payload i x l s)

  check_header-IsCurrent :
      (header payload : Json) (now : ℕ) (s : AdminSession)
      → check_header rt env header payload now ≡ ok (some s)
      → IsCurrent now s
  unfolding check_header or_none
  check_header-IsCurrent header payload now s e =
      ground (arith, read_payload-IsCurrent payload now s)

  checked-IsCurrent :
      (same : Bool) (header payload : List ℕ) (now : ℕ) (s : AdminSession)
      → checked rt env same header payload now ≡ ok (some s)
      → (same ≡ true) × IsCurrent now s
  unfolding checked read_parts
  checked-IsCurrent same header payload now s e =
      ground (arith, λ (h p : Json). check_header-IsCurrent h p now s)

  compare_digest-true : (s t : List ℕ) → compare_digest s t ≡ ok true → s ≡ t
  unfolding compare_digest
  compare_digest-true s t e = ground (arith, same_text_iff s t)

  with_signature_ok :
      (expected : Result (List ℕ)) (header payload signature : List ℕ) (now : ℕ) (s : AdminSession)
      → with_signature rt env expected header payload signature now ≡ ok (some s)
      → (expected ≡ ok signature) × IsCurrent now s
  unfolding with_signature
  with_signature_ok (raised runtime_error) header payload signature now s e = absurd (ground arith)
  with_signature_ok (raised x) header payload signature now s e = absurd (ground arith)
  with_signature_ok (ok expected) header payload signature now s e = ground (
    arith,
    compare_digest-true signature expected,
    λ (same : Bool). checked-IsCurrent same header payload now s,
  )

  -- The token is three parts, and the last one is the signature of the two others.
  abbrev pub IsSigned : List ℕ → Type 0
  IsSigned token =
      (header : List ℕ) × (payload : List ℕ) × (signature : List ℕ) × (token
        ≡ join_dot header (join_dot payload signature))
      × (sign rt env (join_dot header payload) ≡ ok signature)

  three_parts_ok :
      (parts : List (List ℕ)) (now : ℕ) (s : AdminSession)
      → three_parts rt env parts now ≡ ok (some s)
      → IsSigned (joined parts) × IsCurrent now s
  unfolding three_parts
  three_parts_ok [] now s e = absurd (ground arith)
  three_parts_ok (a ∷ []) now s e = absurd (ground arith)
  three_parts_ok (a ∷ b ∷ []) now s e = absurd (ground arith)
  three_parts_ok (a ∷ b ∷ c ∷ []) now s e =
      let (same, late) = with_signature_ok (sign rt env (join_dot a b)) a b c now s e in
      ((a, b, c, refl, same), late)
  three_parts_ok (a ∷ b ∷ c ∷ d ∷ rest) now s e = absurd (ground arith)

  -- `get_session` returns a session only for a token that carries the signature of its first two
  -- parts under the configured secret, never after the session's expiry, and only where
  -- ADMIN_TOKENS_INVALID_BEFORE is read without an error.
  pub get_session-IsSigned :
      (token : List ℕ) (now : ℕ) (s : AdminSession)
      → get_session rt env token now ≡ ok (some s)
      → IsSigned token × IsCurrent now s
  unfolding get_session deserialize
  get_session-IsSigned token now s e =
      let (signed, late) = three_parts_ok (split 46 token) now s e in
      (subst IsSigned (joined-split token) signed, late)

  -- For a token of three parts whose signature is not ASCII, `get_session` does not return None:
  -- wherever a secret is set, a TypeError leaves it.
  pub get_session_raises :
      (secret header payload signature : List ℕ) (now : ℕ)
      → get_signing_secret env ≡ ok secret
      → IsPart header
      → IsPart payload
      → IsPart signature
      → is_ascii signature ≡ false
      → get_session rt env (join_dot header (join_dot payload signature)) now ≡ raised type_error
  unfolding get_session deserialize three_parts with_signature sign compare_digest
  get_session_raises secret header payload signature now known h p q other =
      rw
        (
          split-join_dot header (join_dot payload signature) h,
          split-join_dot payload signature p,
          split_part signature q,
          known,
          other,
        )
        refl

  parse_invalid_before_naive :
      (t : ℕ) (raw : List ℕ)
      → strip (setting env.tokens_invalid_before) ≡ raw
      → raw ≢ []
      → rt.parse_int raw ≡ none
      → rt.fromisoformat (replace_z raw) ≡ some (naive t)
      → parse_invalid_before rt env ≡ raised type_error
  unfolding parse_invalid_before
  parse_invalid_before_naive t [] e some_text n iso = absurd (some_text refl)
  parse_invalid_before_naive t (c ∷ cs) e some_text n iso = rw (e, n, iso) refl

  -- Where ADMIN_TOKENS_INVALID_BEFORE is a date and time without an offset, which the code means to
  -- take as UTC, no token is accepted at all: at no time, and whatever its time of issue.
  pub get_session_locked :
      (t : ℕ) (raw token : List ℕ) (now : ℕ) (s : AdminSession)
      → strip (setting env.tokens_invalid_before) ≡ raw
      → raw ≢ []
      → rt.parse_int raw ≡ none
      → rt.fromisoformat (replace_z raw) ≡ some (naive t)
      → get_session rt env token now ≢ ok (some s)
  get_session_locked t raw token now s stripped some_text n iso accepted =
      let (_, (_, limit, read)) = get_session-IsSigned token now s accepted in
      absurd (ground (arith, parse_invalid_before_naive t raw stripped some_text n iso))
