-- ===== src/Documents/Tests.antt =====
-- Python values of JSON on small inputs.
use process_metrics_platform.Common.{◌≡◌, refl, false, [], ◌∷◌}
use process_metrics_platform.Documents.{dict, list, number, pos, ok, null, raised, key_error}
use process_metrics_platform.Documents.Access.{subscript, get, truthy}

read_missing : subscript (dict (("a", number (pos 1)) ∷ [])) "b" ≡ raised key_error
unfolding subscript
read_missing = refl

read_default : get (dict (("a", number (pos 1)) ∷ [])) "a" null ≡ ok (number (pos 1))
unfolding get
read_default = refl

empty_is_false : truthy (list []) ≡ false
unfolding truthy
empty_is_false = refl
