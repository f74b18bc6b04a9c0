-- ===== src/Documents/Access.antt =====
-- Python's operations on values that come from JSON: subscripts, .get, truth, int and str.
use Prim.Native.String.{◌∷◌ as scons, ◌++◌ as join}
use process_metrics_platform.Common.{
  ℕ, suc, ◌-◌, ◌/◌, ◌^◌, String, Bool, true, false, not, Option, none, some, List, [], ◌∷◌, str_eq,
  ◌==◌, if◌then◌else◌,
}
use process_metrics_platform.Slicer.Mapping.{decimal}
use process_metrics_platform.Documents.{
  Exn, value_error, type_error, key_error, attribute_error, Result, ok, raised, ℤ, pos, negsuc,
  Json, null, boolean, number, fraction, text, array, object, no_items, item, Members, no_members,
  member, member_of, elements,
}

module _ {A : Type 0} where
  unfoldable pub or_raise : Exn → Option A → Result A
  or_raise e none = raised e
  or_raise e (some a) = ok a

unfoldable pub or_value : Json → Option Json → Json
or_value default none = default
or_value default (some v) = v

-- j[key], for a key that is a text
unfoldable pub subscript : Json → String → Result Json
unfolding or_raise member_of
subscript (object ms) key = or_raise key_error (member_of key ms)
subscript _ key = raised type_error

-- j.get(key, default)
unfoldable pub get : Json → String → Json → Result Json
unfolding or_value member_of
get (object ms) key default = ok (or_value default (member_of key ms))
get _ key default = raised attribute_error

-- key in j.keys(), for an object
unfoldable pub has : Members → String → Bool
unfolding member_of
has ms key = elim (member_of key ms) [ none ↦ false | some _ ↦ true ]

unfoldable pub is_zero : ℤ → Bool
is_zero (pos n) = n == 0
is_zero (negsuc n) = false

-- bool(j)
unfoldable pub truthy : Json → Bool
unfolding is_zero
truthy null = false
truthy (boolean b) = b
truthy (number z) = not (is_zero z)
truthy (fraction m e) = true
truthy (text s) = not (str_eq s "")
truthy (array no_items) = false
truthy (array (item j js)) = true
truthy (object no_members) = false
truthy (object (member k v ms)) = true

-- j or default
unfoldable pub or_default : Json → Json → Json
unfolding truthy
or_default j default = if truthy j then j else default

unfoldable pub is_object : Json → Bool
is_object (object _) = true
is_object _ = false

unfoldable pub is_array : Json → Bool
is_array (array _) = true
is_array _ = false

-- What a loop over an object, or over a text, runs through.
unfoldable pub keys_of : Members → List Json
keys_of no_members = []
keys_of (member k v ms) = text k ∷ keys_of ms

unfoldable pub characters : String → List Json
characters String.[] = []
characters (String.◌∷◌ c s) = text (scons c "") ∷ characters s

-- The decimal of an integer
unfoldable pub decimal_of : ℤ → String
decimal_of (pos n) = decimal n
decimal_of (negsuc n) = join "-" (decimal (suc n))

unfoldable pub truncated : ℤ → ℕ → ℤ
truncated (pos n) e = pos (n / 10 ^ e)
truncated (negsuc n) e = let q = suc n / 10 ^ e in if q == 0 then pos 0 else negsuc (q - 1)

-- What int does to texts, and str to floats, arrays and objects.
pub record Conversions : Type 0 where
  pub parse_int : String → Option ℤ
  pub print : Json → String

module _ (c : Conversions) where
  -- int(j)
  unfoldable pub int_of : Json → Result ℤ
  unfolding truncated or_raise
  int_of (boolean b) = ok (pos (if b then 1 else 0))
  int_of (number z) = ok z
  int_of (fraction m e) = ok (truncated m e)
  int_of (text s) = or_raise value_error (c.parse_int s)
  int_of _ = raised type_error

  -- str(j)
  unfoldable pub str_of : Json → String
  unfolding decimal_of
  str_of null = "None"
  str_of (boolean b) = if b then "True" else "False"
  str_of (number z) = decimal_of z
  str_of (text s) = s
  str_of j = c.print j

-- for x in j
unfoldable pub iterate : Json → Result (List Json)
unfolding elements keys_of characters
iterate (array js) = ok (elements js)
iterate (object ms) = ok (keys_of ms)
iterate (text s) = ok (characters s)
iterate _ = raised type_error
