-- ===== src/Metabase/Text.antt =====
-- What bi/providers/metabase/provider.py uses of `str`, on native texts.
use Prim.Native.Char.{Char, code, nul}
use Prim.Native.String.{◌∷◌ as scons, ◌++◌ as join}
use process_metrics_platform.Common.{
  ℕ, zero, suc, ◌-◌, String, Bool, true, false, ◌&&◌, ◌||◌, List, [], ◌∷◌, ltb, leb, ◌==◌, codes,
  if◌then◌else◌,
}
use process_metrics_platform.Strings.{is_space}

unfoldable pub lstrip_text : String → String
unfolding is_space
lstrip_text String.[] = ""
lstrip_text (String.◌∷◌ c s) =
    let rest = lstrip_text s in if is_space (code c) then rest else scons c s

-- A character in front of what is left of a text when its trailing characters are dropped.
abbrev pub keep_unless : Bool → Char → String → String
keep_unless drop c String.[] = if drop then "" else scons c ""
keep_unless drop c (String.◌∷◌ d s) = scons c (scons d s)

unfoldable pub rstrip_text : String → String
unfolding is_space
rstrip_text String.[] = ""
rstrip_text (String.◌∷◌ c s) = keep_unless (is_space (code c)) c (rstrip_text s)

-- s.strip()
unfoldable pub strip_text : String → String
unfolding lstrip_text rstrip_text
strip_text s = rstrip_text (lstrip_text s)

-- s.rstrip("/")
unfoldable pub rstrip_slashes : String → String
rstrip_slashes String.[] = ""
rstrip_slashes (String.◌∷◌ c s) = keep_unless (code c == 47) c (rstrip_slashes s)

-- s.split(".", 1)[-1]
unfoldable pub rest_at_dot : String → String → String
rest_at_dot whole String.[] = whole
rest_at_dot whole (String.◌∷◌ c s) =
    let later = rest_at_dot whole s in if code c == 46 then s else later

unfoldable pub after_dot : String → String
unfolding rest_at_dot
after_dot s = rest_at_dot s s

-- s[:n]
unfoldable pub first_chars : ℕ → String → String
first_chars zero s = ""
first_chars (suc n) String.[] = ""
first_chars (suc n) (String.◌∷◌ c s) = scons c (first_chars n s)

unfoldable pub begins_with : List ℕ → List ℕ → Bool
begins_with [] s = true
begins_with (p ∷ ps) [] = false
begins_with (p ∷ ps) (c ∷ cs) = (p == c) && begins_with ps cs

unfoldable pub is_within : List ℕ → List ℕ → Bool
unfolding begins_with
is_within p [] = begins_with p []
is_within p (c ∷ cs) = begins_with p (c ∷ cs) || is_within p cs

unfoldable pub ends_with : List ℕ → List ℕ → Bool
unfolding begins_with
ends_with p [] = begins_with p []
ends_with p (c ∷ cs) = (begins_with p (c ∷ cs) && begins_with (c ∷ cs) p) || ends_with p cs

-- s.startswith(p), s.endswith(p), p in s
abbrev pub startswith : String → String → Bool
startswith s p = begins_with (codes p) (codes s)

abbrev pub endswith : String → String → Bool
endswith s p = ends_with (codes p) (codes s)

abbrev pub contains_text : String → String → Bool
contains_text s p = is_within (codes p) (codes s)

-- s < t, by code points
unfoldable pub before : String → String → Bool
before String.[] String.[] = false
before String.[] (String.◌∷◌ d t) = true
before (String.◌∷◌ c s) String.[] = false
before (String.◌∷◌ c s) (String.◌∷◌ d t) =
    let rest = before s t in if code c == code d then rest else ltb (code c) (code d)

abbrev char_at : ℕ → String → Char
char_at n String.[] = nul
char_at zero (String.◌∷◌ c s) = c
char_at (suc n) (String.◌∷◌ c s) = char_at n s

abbrev pub is_lower : Char → Bool
is_lower c = leb 97 (code c) && leb (code c) 122

abbrev pub is_upper : Char → Bool
is_upper c = leb 65 (code c) && leb (code c) 90

-- c.upper() and c.lower(), for ASCII
abbrev pub upper : Char → Char
upper c = if is_lower c then char_at (code c - 97) "ABCDEFGHIJKLMNOPQRSTUVWXYZ" else c

abbrev pub lower : Char → Char
lower c = if is_upper c then char_at (code c - 65) "abcdefghijklmnopqrstuvwxyz" else c

unfoldable pub lowered_text : String → String
lowered_text String.[] = ""
lowered_text (String.◌∷◌ c s) = scons (lower c) (lowered_text s)

-- tag.replace("_", " ").title(), for a tag of ASCII letters, digits and underscores; `inside` says that
-- a letter stands before.
unfoldable pub titled : Bool → String → String
titled inside String.[] = ""
titled inside (String.◌∷◌ c s) =
    let rest = titled (is_lower c || is_upper c) s in
    if code c == 95 then join " " rest else scons (if inside then lower c else upper c) rest
