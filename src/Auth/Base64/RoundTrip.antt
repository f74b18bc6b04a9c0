-- ===== src/Auth/Base64/RoundTrip.antt =====
-- `_b64url_encode` of app/services/admin_auth.py, followed by `_b64url_decode`.
use process_metrics_platform.Common.{
  ℕ, suc, ◌+◌, ◌-◌, ◌*◌, ◌/◌, ◌%◌, ◌<◌, ◌≡◌, ◌≢◌, refl, true, false, Option, none, some, List, [],
  ◌∷◌, ◌++◌, ◌==◌, All, arith, length,
}
use process_metrics_platform.Auth.Base64.{
  cons_bytes, char_of, value_of, b64url_encode, Quad, a2b_base64, padding, is_ascii, b64url_decode,
  next_byte, next_quad,
}

abbrev pub AreBytes : List ℕ → Type 0
AreBytes bytes = All (λ b. b < 256) bytes

pub char_of_lem :
    (v : ℕ)
    → v < 64
    → (value_of (char_of v) ≡ some v)
      × ((char_of v == 61) ≡ false)
      × (char_of v < 128)
      × (char_of v ≢ 46)
unfolding char_of value_of
char_of_lem v h = ground arith

abbrev start : Quad
start = record { quad_pos = 0; leftchar = 0; pads = 0 }

-- A character of the alphabet takes the decoder one step on.
a2b_base64_step :
    (q : Quad) (c v : ℕ) (cs : List ℕ)
    → value_of c ≡ some v
    → (c == 61) ≡ false
    → a2b_base64 q (c ∷ cs) ≡ cons_bytes (next_byte q v) (a2b_base64 (next_quad q v) cs)
unfolding a2b_base64
a2b_base64_step q c v cs value plain = ground arith

a2b_base64-char_of :
    (q : Quad) (v : ℕ) (cs : List ℕ)
    → v < 64
    → a2b_base64 q (char_of v ∷ cs) ≡ cons_bytes (next_byte q v) (a2b_base64 (next_quad q v) cs)
a2b_base64-char_of q v cs h =
    let (value, plain, _, _) = char_of_lem v h in a2b_base64_step q (char_of v) v cs value plain

three_bytes :
    (a b c : ℕ)
    → a < 256
    → b < 256
    → c < 256
    → (a / 4 * 4 + (a % 4 * 16 + b / 16) / 16 ≡ a)
      × ((a % 4 * 16 + b / 16) % 16 * 16 + (b % 16 * 4 + c / 64) / 4 ≡ b)
      × ((b % 16 * 4 + c / 64) % 4 * 64 + c % 64 ≡ c)
three_bytes a b c x y z = (omega arith, omega arith, omega arith)

group_bytes :
    (a b c : ℕ) (o : Option (List ℕ))
    → a < 256
    → b < 256
    → c < 256
    → cons_bytes (next_byte start (a / 4)) (
        cons_bytes
          (next_byte (record { quad_pos = 1; leftchar = a / 4; pads = 0 }) (a % 4 * 16 + b / 16))
          (cons_bytes
            (next_byte
              (record { quad_pos = 2; leftchar = (a % 4 * 16 + b / 16) % 16; pads = 0 })
              (b % 16 * 4 + c / 64))
            (cons_bytes
              (next_byte
                (record { quad_pos = 3; leftchar = (b % 16 * 4 + c / 64) % 4; pads = 0 })
                (c % 64))
              o)))
      ≡ cons_bytes (λ out. a ∷ b ∷ c ∷ out) o
unfolding next_byte
group_bytes a b c none x y z = refl
group_bytes a b c (some out) x y z = let (p, q, r) = three_bytes a b c x y z in rw (p, q, r) refl

a2b_base64-group :
    (a b c : ℕ) (cs : List ℕ)
    → a < 256
    → b < 256
    → c < 256
    → a2b_base64 start (
        char_of (a / 4)
        ∷ char_of (a % 4 * 16 + b / 16)
        ∷ char_of (b % 16 * 4 + c / 64)
        ∷ char_of (c % 64)
        ∷ cs)
      ≡ cons_bytes (λ out. a ∷ b ∷ c ∷ out) (a2b_base64 start cs)
unfolding next_byte next_quad
a2b_base64-group a b c cs x y z =
    rw
      (
        a2b_base64-char_of start (a / 4) _ (omega arith),
        a2b_base64-char_of _ (a % 4 * 16 + b / 16) _ (omega arith),
        a2b_base64-char_of _ (b % 16 * 4 + c / 64) _ (omega arith),
        a2b_base64-char_of _ (c % 64) cs (omega arith),
      )
      (group_bytes a b c (a2b_base64 start cs) x y z)

one_byte :
    (a : ℕ)
    → a < 256
    → a2b_base64 start (char_of (a / 4) ∷ char_of (a % 4 * 16) ∷ 61 ∷ 61 ∷ []) ≡ some (a ∷ [])
unfolding next_byte next_quad a2b_base64
one_byte a x =
    let last : a / 4 * 4 + a % 4 * 16 / 16 ≡ a = omega arith in
    rw
      (
        a2b_base64-char_of start (a / 4) _ (omega arith),
        a2b_base64-char_of _ (a % 4 * 16) _ (omega arith),
        last,
      )
      refl

two_bytes :
    (a b : ℕ)
    → a < 256
    → b < 256
    → a2b_base64 start
        (char_of (a / 4) ∷ char_of (a % 4 * 16 + b / 16) ∷ char_of (b % 16 * 4) ∷ 61 ∷ [])
      ≡ some (a ∷ b ∷ [])
unfolding next_byte next_quad a2b_base64
two_bytes a b x y =
    let first : a / 4 * 4 + (a % 4 * 16 + b / 16) / 16 ≡ a = omega arith in
    let last : (a % 4 * 16 + b / 16) % 16 * 16 + b % 16 * 4 / 4 ≡ b = omega arith in
    rw
      (
        a2b_base64-char_of start (a / 4) _ (omega arith),
        a2b_base64-char_of _ (a % 4 * 16 + b / 16) _ (omega arith),
        a2b_base64-char_of _ (b % 16 * 4) _ (omega arith),
        first,
        last,
      )
      refl

pads_of_add : (n : ℕ) → (4 - suc (suc (suc (suc n))) % 4) % 4 ≡ (4 - n % 4) % 4
pads_of_add n = omega arith

a2b_base64-b64url_encode :
    (bytes : List ℕ)
    → AreBytes bytes
    → a2b_base64 start (b64url_encode bytes ++ padding ((4 - length (b64url_encode bytes) % 4) % 4))
      ≡ some bytes
unfolding b64url_encode padding
a2b_base64-b64url_encode [] h = unfold a2b_base64 in refl
a2b_base64-b64url_encode (a ∷ []) h = one_byte a h.0
a2b_base64-b64url_encode (a ∷ b ∷ []) h = two_bytes a b h.0 h.1.0
a2b_base64-b64url_encode (a ∷ b ∷ c ∷ rest) (x, (y, (z, h))) =
    rw
      (
        pads_of_add (length (b64url_encode rest)),
        a2b_base64-group a b c
            (b64url_encode rest ++ padding ((4 - length (b64url_encode rest) % 4) % 4)) x y z,
        a2b_base64-b64url_encode rest h,
      )
      refl

pub is_ascii-b64url_encode :
    (bytes : List ℕ) → AreBytes bytes → is_ascii (b64url_encode bytes) ≡ true
unfolding b64url_encode is_ascii
is_ascii-b64url_encode [] h = refl
is_ascii-b64url_encode (a ∷ []) h = ground (arith, char_of_lem (a / 4), char_of_lem (a % 4 * 16))
is_ascii-b64url_encode (a ∷ b ∷ []) h =
    ground (arith, char_of_lem (a / 4), char_of_lem (a % 4 * 16 + b / 16), char_of_lem (b % 16 * 4))
is_ascii-b64url_encode (a ∷ b ∷ c ∷ rest) (x, (y, (z, h))) = ground (
  arith,
  char_of_lem (a / 4),
  char_of_lem (a % 4 * 16 + b / 16),
  char_of_lem (b % 16 * 4 + c / 64),
  char_of_lem (c % 64),
  is_ascii-b64url_encode rest h,
)

-- Decoding what was encoded gives back the bytes, whatever their number: `_b64url_decode` puts the
-- padding on again that `_b64url_encode` takes off.
pub b64url_decode-b64url_encode :
    (bytes : List ℕ) → AreBytes bytes → b64url_decode (b64url_encode bytes) ≡ some bytes
unfolding b64url_decode
b64url_decode-b64url_encode bytes h =
    rw (is_ascii-b64url_encode bytes h) (a2b_base64-b64url_encode bytes h)
