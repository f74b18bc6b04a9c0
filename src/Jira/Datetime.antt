-- ===== src/Jira/Datetime.antt =====
-- parse_jira_datetime of pipelines/utils/__init__.py.
use Prim.Native.Char.{code}
use Prim.Native.String.{◌∷◌ as scons, ◌++◌ as join}
use process_metrics_platform.Common.{
  ℕ, String, Bool, false, ◌||◌, Option, none, ◌==◌, if◌then◌else◌,
}
use process_metrics_platform.Documents.{
  type_error, attribute_error, Result, ok, raised, Json, text, array, object,
}
use process_metrics_platform.Documents.Access.{truthy}

-- A datetime with a zone, as its instant, or one without, in microseconds.
pub data Datetime : Type 0 where
  aware : ℕ → Datetime
  naive : ℕ → Datetime

-- char in s
unfoldable pub has_char : ℕ → String → Bool
has_char n String.[] = false
has_char n (String.◌∷◌ c s) = (code c == n) || has_char n s

-- s.endswith(char)
unfoldable pub ends_with_char : ℕ → String → Bool
ends_with_char n String.[] = false
ends_with_char n (String.◌∷◌ c String.[]) = code c == n
ends_with_char n (String.◌∷◌ c (String.◌∷◌ d s)) = ends_with_char n (scons d s)

-- s.replace("Z", "+0000")
unfoldable pub replace_utc : String → String
replace_utc String.[] = ""
replace_utc (String.◌∷◌ c s) =
    let rest = replace_utc s in if code c == 90 then join "+0000" rest else scons c rest

-- What stands before and after the last dot of a text that has one.
unfoldable pub split_last : String → String × String
unfolding has_char
split_last String.[] = ("", "")
split_last (String.◌∷◌ c s) =
    let (base, rest) = split_last s in if has_char 46 s then (scons c base, rest) else ("", s)

unfoldable pub before_char : ℕ → String → String
before_char n String.[] = ""
before_char n (String.◌∷◌ c s) =
    let rest = before_char n s in if code c == n then "" else scons c rest

-- s.split(char)[1]: what stands between the first two occurrences, for a text that has one.
unfoldable pub second_part : ℕ → String → String
unfolding before_char
second_part n String.[] = ""
second_part n (String.◌∷◌ c s) =
    let later = second_part n s in if code c == n then before_char n s else later

unfoldable pub zone_of : String → String
unfolding has_char second_part
zone_of rest =
    if has_char 43 rest
    then join "+" (second_part 43 rest)
    else if has_char 45 rest
    then join "-" (second_part 45 rest)
    else ""

abbrev without_fraction : String × String → String
unfolding zone_of
without_fraction (base, rest) = join base (zone_of rest)

-- The text without its fraction of a second, if it has a dot
unfoldable pub drop_fraction : String → String
unfolding has_char split_last without_fraction
drop_fraction s = if has_char 46 s then without_fraction (split_last s) else s

abbrev pub zoned_format : String
zoned_format = "%Y-%m-%dT%H:%M:%S%z"

abbrev pub fraction_format : String
fraction_format = "%Y-%m-%dT%H:%M:%S.%f"

abbrev pub plain_format : String
plain_format = "%Y-%m-%dT%H:%M:%S"

-- `strptime s format` is datetime.strptime, with a none for a ValueError.
module _ (strptime : String → String → Option Datetime) where
  unfoldable pub parse_text : String → Option Datetime
  unfolding has_char ends_with_char replace_utc drop_fraction
  parse_text s =
      if has_char 43 s || ends_with_char 90 s
      then strptime (drop_fraction (replace_utc s)) zoned_format
      else if has_char 46 s
      then strptime s fraction_format
      else strptime s plain_format

  abbrev parse_present : Json → Result (Option Datetime)
  unfolding parse_text
  parse_present (text s) = ok (parse_text s)
  parse_present (array js) = raised attribute_error
  parse_present (object ms) = raised attribute_error
  parse_present j = raised type_error

  -- A value that is no text has no `in`, or no endswith and no replace.
  unfoldable pub parse_jira_datetime : Json → Result (Option Datetime)
  unfolding parse_present truthy
  parse_jira_datetime j = if truthy j then parse_present j else ok none
