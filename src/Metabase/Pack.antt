-- ===== src/Metabase/Pack.antt =====
-- The pack of JSON files, and its validation in bi/providers/metabase/provider.py.
use process_metrics_platform.Common.{
  String, Bool, true, false, not, ◌&&◌, Option, none, some, List, [], ◌∷◌, if◌then◌else◌,
}
use process_metrics_platform.Documents.{
  value_error, Result, ok, raised, ◌>>=◌, Json, null, array, object, no_items, Members, member_of,
  elements,
}
use process_metrics_platform.Documents.Access.{or_value, has, truthy, is_object, is_array, iterate}

-- What json.loads(path.read_text()) gives for a file.
abbrev pub File : Type 0
File = Result Json

-- The files of a directory in the order of their names, or none where there is no directory.
pub record Pack : Type 0 where
  pub cards : Option (List File)
  pub dashboards : Option (List File)
  pub collections : Option File

-- sorted(directory.glob("*.json"))
unfoldable pub files_of : Option (List File) → List File
files_of none = []
files_of (some files) = files

abbrev pub require : Bool → Result {0} Unit
require true = ok tt
require false = raised value_error

module _ {A : Type 0} where
  unfoldable pub each : (A → Result {0} Unit) → List A → Result {0} Unit
  each check [] = ok tt
  each check (x ∷ xs) = check x >>= λ _. each check xs

-- required - set(members.keys()) is empty
unfoldable pub has_all : List String → Members → Bool
unfolding has
has_all [] ms = true
has_all (k ∷ ks) ms = has ms k && has_all ks ms

abbrev only_object : Json → Result Members
only_object (object ms) = ok ms
only_object _ = raised value_error

unfoldable pub load_json_object : File → Result Members
load_json_object file = file >>= only_object

unfoldable pub all_objects : List Json → Bool
unfolding is_object
all_objects [] = true
all_objects (j ∷ js) = is_object j && all_objects js

abbrev only_objects : Json → Result (List Json)
unfolding all_objects elements
only_objects (array js) = if all_objects (elements js) then ok (elements js) else raised value_error
only_objects _ = raised value_error

unfoldable pub load_json_list : File → Result (List Json)
unfolding only_objects
load_json_list file = file >>= only_objects

abbrev pub required_card_keys : List String
required_card_keys = "key" ∷ "name" ∷ "query" ∷ []

abbrev pub required_layout_keys : List String
required_layout_keys = "card_key" ∷ "row" ∷ "col" ∷ "size_x" ∷ "size_y" ∷ []

abbrev pub required_filter_keys : List String
required_filter_keys = "id" ∷ "type" ∷ []

-- template_tags is None, or a dict
unfoldable pub fits_tags : Option Json → Bool
unfolding is_object
fits_tags none = true
fits_tags (some null) = true
fits_tags (some j) = is_object j

unfoldable pub validate_card : File → Result {0} Unit
unfolding load_json_object has_all fits_tags member_of
validate_card file = load_json_object file >>= λ card.
    require (has_all required_card_keys card) >>= λ _.
    require (fits_tags (member_of "template_tags" card))

-- An object with these keys
unfoldable pub validate_object : List String → Json → Result {0} Unit
unfolding has_all
validate_object keys (object ms) = require (has_all keys ms)
validate_object keys _ = raised value_error

unfoldable pub validate_layout : Option Json → Result {0} Unit
unfolding validate_object each elements
validate_layout (some (array items)) = each (validate_object required_layout_keys) (elements items)
validate_layout _ = raised value_error

-- A value that is neither empty nor a list is refused, and what is left is walked through.
unfoldable pub validate_filters : Json → Result {0} Unit
unfolding truthy is_array iterate validate_object each
validate_filters filters =
    if truthy filters && not (is_array filters)
    then raised value_error
    else iterate filters >>= each (validate_object required_filter_keys)

unfoldable pub validate_dashboard : File → Result {0} Unit
unfolding load_json_object has_all validate_layout validate_filters or_value member_of
validate_dashboard file = load_json_object file >>= λ dashboard.
    require (has_all ("name" ∷ "layout" ∷ []) dashboard) >>= λ _.
    validate_layout (member_of "layout" dashboard) >>= λ _.
    validate_filters (or_value (array no_items) (member_of "filters" dashboard))

unfoldable pub validate_files : Option (List File) → Option (List File) → Result {0} Unit
unfolding validate_card validate_dashboard each
validate_files (some cards) (some dashboards) =
    each validate_card cards >>= λ _. each validate_dashboard dashboards
validate_files _ _ = raised value_error

unfoldable pub validate_pack : Pack → Result {0} Unit
unfolding validate_files
validate_pack pack = validate_files pack.cards pack.dashboards
