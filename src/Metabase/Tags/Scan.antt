-- ===== src/Metabase/Tags/Scan.antt =====
-- _TAG_PATTERN of bi/providers/metabase/provider.py: \{\{\s*([a-zA-Z0-9_]+)\s*\}\}
use Prim.Native.Char.{Char, code}
use Prim.Native.String.{◌∷◌ as scons}
use process_metrics_platform.Common.{
  ℕ, zero, suc, String, Bool, ◌&&◌, ◌||◌, Option, none, some, List, [], ◌∷◌, leb, ◌==◌, codes,
  length, if◌then◌else◌,
}
use process_metrics_platform.Strings.{is_space}

-- [a-zA-Z0-9_]
unfoldable pub is_word : Char → Bool
is_word c =
    (leb 97 (code c) && leb (code c) 122)
    || (leb 65 (code c) && leb (code c) 90)
    || (leb 48 (code c) && leb (code c) 57)
    || (code c == 95)

-- \s*
unfoldable pub skip_spaces : String → String
unfolding is_space
skip_spaces String.[] = ""
skip_spaces (String.◌∷◌ c s) =
    let rest = skip_spaces s in if is_space (code c) then rest else scons c s

-- The longest word that the text begins with, and what follows.
unfoldable pub span_word : String → String × String
unfolding is_word
span_word String.[] = ("", "")
span_word (String.◌∷◌ c s) =
    let (word, rest) = span_word s in if is_word c then (scons c word, rest) else ("", scons c s)

-- What follows two characters with this code.
unfoldable pub after_pair : ℕ → String → Option String
after_pair n String.[] = none
after_pair n (String.◌∷◌ c String.[]) = none
after_pair n (String.◌∷◌ c (String.◌∷◌ d s)) =
    if (code c == n) && (code d == n) then some s else none

-- The tag and what follows the closing braces, which stand after the word and its spaces.
abbrev closing : String → Option String → Option (String × String)
closing word none = none
closing word (some rest) = some (word, rest)

unfoldable pub match_word : String × String → Option (String × String)
unfolding skip_spaces after_pair
match_word (String.[], rest) = none
match_word (String.◌∷◌ c word, rest) = closing (scons c word) (after_pair 125 (skip_spaces rest))

abbrev opened : Option String → Option (String × String)
unfolding match_word span_word skip_spaces
opened none = none
opened (some s) = match_word (span_word (skip_spaces s))

-- A match of the pattern at the beginning of the text. A word and a space are different
-- characters, so there is one way to match.
unfoldable pub match_tag : String → Option (String × String)
unfolding opened after_pair
match_tag s = opened (after_pair 123 s)

-- The matches after this position: `next` finds those of a text, `later` are those of the next position.
abbrev pub found : (String → List String) → List String → Option (String × String) → List String
found next later none = later
found next later (some (tag, rest)) = tag ∷ next rest

-- pattern.findall(query): at each position a match, or the next position.
unfoldable pub find_tags : ℕ → String → List String
unfolding match_tag
find_tags zero s = []
find_tags (suc fuel) String.[] = []
find_tags (suc fuel) (String.◌∷◌ c s) =
    found (find_tags fuel) (find_tags fuel s) (match_tag (scons c s))

-- A match is not empty, so the length is enough fuel.
unfoldable pub findall : String → List String
unfolding find_tags
findall s = find_tags (length (codes s)) s
