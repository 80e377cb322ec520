-- ===== src/Dialogs/Tests.antt =====
-- Runs of the dialogs and menus.
use postgresql_cluster.Common.{true, false, ◌≡◌, refl, String}
use postgresql_cluster.Js.{
  Js, bool, num, str, obj, Props, end, prop, Result, ok, thrown, undefined, field,
}
use postgresql_cluster.Dialogs.{
  remove_environment, remove_project, remove_secret, remove_server, remove_cluster, using_names,
}
use postgresql_cluster.Dialogs.Laws.{after_run, says_success, replied, remove-says_success}

abbrev entity : Props
entity = prop "name" (str "staging") (prop "description" (str "") end)

abbrev free_row : Props
free_row = prop "id" (num 2) (prop "name" (str "old") (prop "used" (bool false) end))

abbrev used_row : Props
used_row = prop "id" (num 1) (prop "name" (str "key") (prop "used" (bool true) end))

remove-says_success_example :
    (says_success (after_run (remove_environment thrown free_row)).done ≡ replied thrown)
    × (says_success (after_run (remove_project (str "1") thrown free_row)).done ≡ replied thrown)
    × (says_success (after_run (remove_secret thrown free_row)).done ≡ replied thrown)
    × (says_success (after_run (remove_server (num 3) thrown (ok undefined) free_row)).done
        ≡ replied thrown)
    × (says_success (after_run (remove_cluster (num 3) (str "pg") thrown)).done ≡ true)
unfolding field postgresql_cluster.Js.to_number postgresql_cluster.Js.to_string
remove-says_success_example =
    remove-says_success (str "1") (num 3) (str "pg") thrown (ok undefined) free_row refl refl

abbrev used_by : String
used_by = "a, b, c, d, e, f, g, h, i, j, k"

using_names_test : using_names (str used_by) ≡ str "a, b, c, d, e, f, g, h, i, j, ..."
unfolding using_names
using_names_test = refl
