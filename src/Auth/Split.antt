-- ===== src/Auth/Split.antt =====
-- Splitting and joining the parts of a token of app/services/admin_auth.py.
use process_metrics_platform.Common.{
  ℕ, ◌/◌, ◌*◌, ◌%◌, ◌+◌, ◌≡◌, ◌≢◌, refl, false, List, [], ◌∷◌, ◌==◌, arith, All, ap, ◌∙◌, ==_iff,
  Bool-cases, inl, inr,
}
use process_metrics_platform.Strings.{split, onto_first}
use process_metrics_platform.Auth.Sessions.{join_dot}
use process_metrics_platform.Auth.Base64.{b64url_encode}
use process_metrics_platform.Auth.Base64.RoundTrip.{AreBytes, char_of_lem}

-- The text has no dot.
abbrev pub IsPart : List ℕ → Type 0
IsPart s = All (λ c. (c == 46) ≡ false) s

pub split_part : (s : List ℕ) → IsPart s → split 46 s ≡ s ∷ []
unfolding split
split_part [] h = refl
split_part (c ∷ s) (d, h) = rw (d, split_part s h) refl

pub split-join_dot : (s t : List ℕ) → IsPart s → split 46 (join_dot s t) ≡ s ∷ split 46 t
unfolding split
split-join_dot [] t h = refl
split-join_dot (c ∷ s) t (d, h) = rw (d, split-join_dot s t h) refl

pub IsPart-b64url_encode : (bytes : List ℕ) → AreBytes bytes → IsPart (b64url_encode bytes)
unfolding b64url_encode
IsPart-b64url_encode [] h = tt
IsPart-b64url_encode (a ∷ []) h = ground (arith, char_of_lem (a / 4), char_of_lem (a % 4 * 16))
IsPart-b64url_encode (a ∷ b ∷ []) h =
    ground (arith, char_of_lem (a / 4), char_of_lem (a % 4 * 16 + b / 16), char_of_lem (b % 16 * 4))
IsPart-b64url_encode (a ∷ b ∷ c ∷ rest) (x, (y, (z, h))) = ground (
  arith,
  char_of_lem (a / 4),
  char_of_lem (a % 4 * 16 + b / 16),
  char_of_lem (b % 16 * 4 + c / 64),
  char_of_lem (c % 64),
  IsPart-b64url_encode rest h,
)

-- The parts put together again.
abbrev pub joined : List (List ℕ) → List ℕ
joined [] = []
joined (s ∷ []) = s
joined (s ∷ t ∷ rest) = join_dot s (joined (t ∷ rest))

joined-onto_first :
    (c : ℕ) (parts : List (List ℕ)) → parts ≢ [] → joined (onto_first c parts) ≡ c ∷ joined parts
joined-onto_first c [] h = absurd (h refl)
joined-onto_first c (s ∷ []) h = refl
joined-onto_first c (s ∷ t ∷ rest) h = refl

joined_empty : (parts : List (List ℕ)) → parts ≢ [] → joined ([] ∷ parts) ≡ 46 ∷ joined parts
joined_empty [] h = absurd (h refl)
joined_empty (s ∷ rest) h = refl

onto_first_nonempty : (c : ℕ) (parts : List (List ℕ)) → onto_first c parts ≢ []
onto_first_nonempty c [] = λ e. ground arith
onto_first_nonempty c (s ∷ rest) = λ e. ground arith

split_nonempty : (s : List ℕ) → split 46 s ≢ []
unfolding split
split_nonempty [] = ground arith
split_nonempty (c ∷ s) = elim (Bool-cases (c == 46)) [
  | inl e ↦ rw e (λ h. ground arith)
  | inr e ↦ rw e (onto_first_nonempty c (split 46 s))
]

pub joined-split : (s : List ℕ) → joined (split 46 s) ≡ s
unfolding split
joined-split [] = refl
joined-split (c ∷ s) = elim (Bool-cases (c == 46)) [
  | inl e ↦
      let same : c ≡ 46 = (==_iff c 46).0 e in
      rw e (
        joined_empty (split 46 s) (split_nonempty s)
        ∙ ap (λ t. 46 ∷ t) (joined-split s)
        ∙ rw same refl)
  | inr e ↦
      rw e (joined-onto_first c (split 46 s) (split_nonempty s) ∙ ap (λ t. c ∷ t) (joined-split s))
]
