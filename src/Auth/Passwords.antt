-- ===== src/Auth/Passwords.antt =====
-- Passwords and the Authorization header in app/services/admin_auth.py. bcrypt is a parameter:
-- `checkpw plain stored`.
use process_metrics_platform.Common.{
  ℕ, ◌≡◌, ◌⊎◌, Bool, true, false, ◌||◌, Option, none, some, List, [], ◌∷◌, ◌++◌, codes, All,
}
use process_metrics_platform.Strings.{is_space, strip, after_prefix}
use process_metrics_platform.Auth.Runtime.{Result, ok, ◌>>=◌}
use process_metrics_platform.Auth.Sessions.{compare_digest}

unfoldable pub has_prefix : List ℕ → List ℕ → Bool
unfolding after_prefix
has_prefix prefix s = elim (after_prefix prefix s) [ none ↦ false | some _ ↦ true ]

-- stored.startswith(("$2b$", "$2a$", "$2y$"))
unfoldable pub is_bcrypt : List ℕ → Bool
unfolding has_prefix
is_bcrypt stored =
    has_prefix (codes "$2b$") stored
    || has_prefix (codes "$2a$") stored
    || has_prefix (codes "$2y$") stored

-- token or None
unfoldable pub or_absent : List ℕ → Option (List ℕ)
or_absent [] = none
or_absent (c ∷ cs) = some (c ∷ cs)

unfoldable pub after_bearer : Option (List ℕ) → Option (List ℕ)
unfolding or_absent
after_bearer none = none
after_bearer (some rest) = or_absent (strip rest)

unfoldable pub parse_bearer_token : Option (List ℕ) → Option (List ℕ)
unfolding after_bearer
parse_bearer_token none = none
parse_bearer_token (some auth_header) = after_bearer (after_prefix (codes "Bearer ") auth_header)

module _ (checkpw : List ℕ → List ℕ → Bool) where
  -- (is_valid, needs_rehash)
  unfoldable pub verify_password : List ℕ → List ℕ → Result (Bool × Bool)
  unfolding is_bcrypt compare_digest
  verify_password plain stored = elim (is_bcrypt stored) [
    | true ↦ ok (checkpw plain stored, false)
    | false ↦ compare_digest plain stored >>= λ valid. ok (valid, valid)
  ]

  -- What a stored password means: a bcrypt hash is checked by bcrypt, anything else is the
  -- password itself. Both texts are ASCII, or the stored one is a hash.
  abbrev pub Matches : List ℕ → List ℕ → Type 0
  Matches plain stored =
      ((is_bcrypt stored ≡ true) × (checkpw plain stored ≡ true))
      ⊎ ((is_bcrypt stored ≡ false) × (plain ≡ stored))

-- The header for a token: "Bearer " and the token.
abbrev pub bearer : List ℕ → List ℕ
bearer token = codes "Bearer " ++ token

-- The text has no space.
abbrev pub IsSolid : List ℕ → Type 0
IsSolid s = All (λ c. is_space c ≡ false) s
