-- ===== src/Documents/Keys.antt =====
-- Python's `dict` keyed by hashable JSON values, in insertion order.
use process_metrics_platform.Common.{
  ℕ, ◌≡◌, refl, ◌↔◌, String, Bool, true, false, ◌&&◌, Option, none, some, List, [], ◌∷◌, str_eq,
  eq_iff, ◌==◌, ==_iff, arith, if◌then◌else◌,
}
use process_metrics_platform.Documents.{
  type_error, Result, ok, raised, ℤ, pos, negsuc, Json, null, boolean, number, fraction, text,
  array, object,
}

-- A number is the key of the Booleans that equal it, too.
pub data Key : Type 0 where
  null_key : Key
  number_key : ℤ → Key
  fraction_key : ℤ → ℕ → Key
  text_key : String → Key

-- hash(j): an array or an object is unhashable
unfoldable pub key_of : Json → Result Key
key_of null = ok null_key
key_of (boolean b) = ok (number_key (pos (if b then 1 else 0)))
key_of (number z) = ok (number_key z)
key_of (fraction m e) = ok (fraction_key m e)
key_of (text s) = ok (text_key s)
key_of (array js) = raised type_error
key_of (object ms) = raised type_error

unfoldable pub same_integer : ℤ → ℤ → Bool
same_integer (pos m) (pos n) = m == n
same_integer (negsuc m) (negsuc n) = m == n
same_integer _ _ = false

unfoldable pub same_key : Key → Key → Bool
unfolding same_integer
same_key null_key null_key = true
same_key (number_key z) (number_key w) = same_integer z w
same_key (fraction_key z m) (fraction_key w n) = same_integer z w && m == n
same_key (text_key s) (text_key t) = str_eq s t
same_key _ _ = false

pub same_integer_iff : (z w : ℤ) → (same_integer z w ≡ true) ↔ (z ≡ w)
unfolding same_integer
same_integer_iff (pos m) (pos n) = ground (arith, ==_iff m n)
same_integer_iff (pos m) (negsuc n) = ground arith
same_integer_iff (negsuc m) (pos n) = ground arith
same_integer_iff (negsuc m) (negsuc n) = ground (arith, ==_iff m n)

pub same_key_iff : (j k : Key) → (same_key j k ≡ true) ↔ (j ≡ k)
unfolding same_key
same_key_iff null_key null_key = ground arith
same_key_iff null_key (number_key w) = ground arith
same_key_iff null_key (fraction_key w n) = ground arith
same_key_iff null_key (text_key t) = ground arith
same_key_iff (number_key z) null_key = ground arith
same_key_iff (number_key z) (number_key w) = ground (arith, same_integer_iff z w)
same_key_iff (number_key z) (fraction_key w n) = ground arith
same_key_iff (number_key z) (text_key t) = ground arith
same_key_iff (fraction_key z m) null_key = ground arith
same_key_iff (fraction_key z m) (number_key w) = ground arith
same_key_iff (fraction_key z m) (fraction_key w n) =
    ground (arith, same_integer_iff z w, ==_iff m n)
same_key_iff (fraction_key z m) (text_key t) = ground arith
same_key_iff (text_key s) null_key = ground arith
same_key_iff (text_key s) (number_key w) = ground arith
same_key_iff (text_key s) (fraction_key w n) = ground arith
same_key_iff (text_key s) (text_key t) = ground (arith, eq_iff s t)

abbrev pub Keyed : Type 0 → Type 0
Keyed V = List (Key × V)

module _ {V : Type 0} where
  -- d.get(k)
  unfoldable pub find : Key → Keyed V → Option V
  unfolding same_key
  find k [] = none
  find k ((j, v) ∷ d) = if same_key j k then some v else find k d

  -- d[k] = v
  unfoldable pub assign : Key → V → Keyed V → Keyed V
  unfolding same_key
  assign k v [] = (k, v) ∷ []
  assign k v ((j, w) ∷ d) = if same_key j k then (j, v) ∷ d else (j, w) ∷ assign k v d

  pub find-assign :
      (k j : Key) (v : V) (d : Keyed V)
      → find j (assign k v d) ≡ (if same_key k j then some v else find j d)
  unfolding find assign
  find-assign k j v [] = refl
  find-assign k j v ((i, w) ∷ d) =
      ground (arith, same_key_iff k j, same_key_iff i k, same_key_iff i j, find-assign k j v d)
