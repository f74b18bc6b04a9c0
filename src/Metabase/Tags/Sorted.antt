-- ===== src/Metabase/Tags/Sorted.antt =====
-- sorted(set(tags)), in bi/providers/metabase/provider.py.
use process_metrics_platform.Common.{String, List, [], ◌∷◌, str_eq, if◌then◌else◌}
use process_metrics_platform.Metabase.Text.{before}

unfoldable pub place_tag : String → List String → List String
unfolding before
place_tag t [] = t ∷ []
place_tag t (u ∷ us) =
    if str_eq t u then u ∷ us else if before t u then t ∷ u ∷ us else u ∷ place_tag t us

unfoldable pub sorted_set : List String → List String
unfolding place_tag
sorted_set [] = []
sorted_set (t ∷ ts) = place_tag t (sorted_set ts)
