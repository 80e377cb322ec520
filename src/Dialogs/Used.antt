-- ===== src/Dialogs/Used.antt =====
-- What is said of a secret that clusters use: the warning of
-- console/ui/src/features/settings-table-row-actions/ui/index.tsx, with the limit of its
-- model/constants.ts.
use postgresql_cluster.Common.{
  ℕ, zero, suc, String, ◌==◌, ltb, List, [], ◌∷◌, ◌++◌, length, if◌then◌else◌,
}
use postgresql_cluster.Js.{Js, undefined, num, str}
use postgresql_cluster.Js.Text.{◌⧺◌}

abbrev secret_toast_display_clusters_limit : ℕ
secret_toast_display_clusters_limit = 10

abbrev pub begun_with : String → List String → List String
begun_with s [] = s ∷ []
begun_with s (name ∷ names) = (s ⧺ name) ∷ names

-- `s.split(', ')`
unfoldable pub split_names : String → List String
split_names String.[] = "" ∷ []
split_names (String.◌∷◌ c String.[]) = String.◌∷◌ c "" ∷ []
split_names (String.◌∷◌ c (String.◌∷◌ d s)) =
    let after_separator = split_names s in
    let after_char = split_names (String.◌∷◌ d s) in
    if String.◌∷◌ c (String.◌∷◌ d "") == ", "
    then "" ∷ after_separator
    else begun_with (String.◌∷◌ c "") after_char

-- `names.join(', ')`
unfoldable pub join_names : List String → String
join_names [] = ""
join_names (name ∷ []) = name
join_names (name ∷ other ∷ names) = name ⧺ ", " ⧺ join_names (other ∷ names)

-- `names.slice(0, n)`
abbrev pub first_names : ℕ → List String → List String
first_names n [] = []
first_names zero (name ∷ names) = []
first_names (suc n) (name ∷ names) = name ∷ first_names n names

-- The count of the clusters and their names, from `row.original.usedBy`.
unfoldable pub using_count : Js → Js
unfolding split_names
using_count (str s) = num (length (split_names s))
using_count v = undefined

unfoldable pub using_names : Js → Js
unfolding split_names join_names
using_names (str s) =
    if ltb secret_toast_display_clusters_limit (length (split_names s))
    then str
        (join_names (first_names secret_toast_display_clusters_limit (split_names s) ++ "..." ∷ []))
    else str s
using_names v = v
