-- ===== src/Auth/Base64.antt =====
-- `_b64url_encode` and `_b64url_decode` of app/services/admin_auth.py, with what Python's base64 and
-- binascii do: the alphabet with - and _, and a decoder that skips what is not of the alphabet.
-- Bytes and characters are numbers.
pub mod RoundTrip
use process_metrics_platform.Common.{
  ℕ, zero, suc, ◌+◌, ◌-◌, ◌*◌, ◌/◌, ◌%◌, Bool, true, false, Option, none, some, List, [], ◌∷◌, ◌++◌,
  ltb, leb, ◌==◌, ◌||◌, ◌&&◌, length, if◌then◌else◌,
}

-- The character of six bits.
unfoldable pub char_of : ℕ → ℕ
char_of v =
    if ltb v 26
    then v + 65
    else if ltb v 52
    then v + 71
    else if ltb v 62
    then v - 4
    else if v == 62
    then 45
    else 95

-- The six bits of a character, after `-_` is translated to `+/`.
unfoldable pub value_of : ℕ → Option ℕ
value_of c =
    if leb 65 c && leb c 90
    then some (c - 65)
    else if leb 97 c && leb c 122
    then some (c - 71)
    else if leb 48 c && leb c 57
    then some (c + 4)
    else if (c == 43) || (c == 45)
    then some 62
    else if (c == 47) || (c == 95)
    then some 63
    else none

-- base64.urlsafe_b64encode(data).rstrip(b"="): a last group of one or two bytes gives two or three
-- characters.
unfoldable pub b64url_encode : List ℕ → List ℕ
unfolding char_of
b64url_encode [] = []
b64url_encode (a ∷ []) = char_of (a / 4) ∷ char_of (a % 4 * 16) ∷ []
b64url_encode (a ∷ b ∷ []) =
    char_of (a / 4) ∷ char_of (a % 4 * 16 + b / 16) ∷ char_of (b % 16 * 4) ∷ []
b64url_encode (a ∷ b ∷ c ∷ rest) =
    char_of (a / 4)
    ∷ char_of (a % 4 * 16 + b / 16)
    ∷ char_of (b % 16 * 4 + c / 64)
    ∷ char_of (c % 64)
    ∷ b64url_encode rest

-- The decoder's state: the position in the group of four, the bits left over, the pads seen.
pub record Quad : Type 0 where
  pub quad_pos : ℕ
  pub leftchar : ℕ
  pub pads : ℕ

-- What one character of the alphabet gives: a byte, unless it is the first of its group.
unfoldable pub next_byte : Quad → ℕ → List ℕ → List ℕ
next_byte q v out = elim q.quad_pos [
  | zero ↦ out
  | suc zero ↦ (q.leftchar * 4 + v / 16) ∷ out
  | suc (suc zero) ↦ (q.leftchar * 16 + v / 4) ∷ out
  | suc (suc (suc _)) ↦ (q.leftchar * 64 + v) ∷ out
]

unfoldable pub next_quad : Quad → ℕ → Quad
next_quad q v = elim q.quad_pos [
  | zero ↦ record { quad_pos = 1; leftchar = v; pads = 0 }
  | suc zero ↦ record { quad_pos = 2; leftchar = v % 16; pads = 0 }
  | suc (suc zero) ↦ record { quad_pos = 3; leftchar = v % 4; pads = 0 }
  | suc (suc (suc _)) ↦ record { quad_pos = 0; leftchar = 0; pads = 0 }
]

abbrev pub cons_bytes : (List ℕ → List ℕ) → Option (List ℕ) → Option (List ℕ)
cons_bytes f none = none
cons_bytes f (some out) = some (f out)

-- binascii.a2b_base64: none is binascii.Error, an input that ends inside a group.
unfoldable pub a2b_base64 : Quad → List ℕ → Option (List ℕ)
unfolding value_of next_byte next_quad
a2b_base64 q [] = if q.quad_pos == 0 then some [] else none
a2b_base64 q (c ∷ cs) =
    let next = a2b_base64 (record q { pads = q.pads + 1 }) cs in
    let skip = a2b_base64 q cs in
    elim (c == 61) [
      | true ↦
          if leb 2 q.quad_pos
          then (if leb 4 (q.quad_pos + (q.pads + 1)) then some [] else next)
          else skip
      | false ↦ elim (value_of c) [
        | none ↦ skip
        | some v ↦ cons_bytes (next_byte q v) (a2b_base64 (next_quad q v) cs)
      ]
    ]

-- "=" * n
unfoldable pub padding : ℕ → List ℕ
padding zero = []
padding (suc n) = 61 ∷ padding n

-- s.encode("ascii") succeeds
unfoldable pub is_ascii : List ℕ → Bool
is_ascii [] = true
is_ascii (c ∷ cs) = ltb c 128 && is_ascii cs

-- none is a ValueError: a UnicodeEncodeError or a binascii.Error.
unfoldable pub b64url_decode : List ℕ → Option (List ℕ)
unfolding a2b_base64 padding is_ascii
b64url_decode text =
    if is_ascii text
    then a2b_base64 (record { quad_pos = 0; leftchar = 0; pads = 0 })
        (text ++ padding ((4 - length text % 4) % 4))
    else none
