-- ===== src/Access/Tests.antt =====
-- Runs of the stored entries.
use postgresql_cluster.Common.{false, ◌≡◌, refl, none, some}
use postgresql_cluster.Js.{Js, nan, num, str, arr, obj, nil, cons, end, prop, to_number}
use postgresql_cluster.Js.Text.{◌⧺◌}
use postgresql_cluster.Access.{
  Access, loaded_access, log_in, log_out, set_project, choose_project, is_private_shown,
  authorization,
}
use postgresql_cluster.Access.Laws.{
  loaded, logged_in, project_set, ReadsBack, reachable-ReadsBack, shown-authorization,
  empty_projects-stick,
}

abbrev visited : Access
visited = set_project (num 3) (log_in "secret" (loaded_access none none))

reachable-ReadsBack_example : ReadsBack visited
reachable-ReadsBack_example = reachable-ReadsBack visited (
    project_set (num 3) (log_in "secret" (loaded_access none none))
      (logged_in "secret" (loaded_access none none) (loaded none none)))

shown-authorization_example :
    (authorization "getClusters" visited ≡ some ("Bearer " ⧺ "secret"))
    × (is_private_shown "secret" (log_out visited) ≡ false)
    × (is_private_shown "secret" (log_in "guess" visited) ≡ false)
unfolding log_in is_private_shown set_project
shown-authorization_example =
    shown-authorization "secret" "guess" "getClusters" visited refl (cc) (cc)

abbrev no_project : Access
no_project = loaded_access (some "secret") none

abbrev later_projects : Js
later_projects = arr (cons (obj (prop "id" (num 1) end)) nil)

empty_projects-stick_example :
    ((choose_project (arr nil) no_project).current_project ≡ str "undefined")
    × (to_number (choose_project (arr nil) no_project).current_project ≡ nan)
    × (choose_project later_projects (choose_project (arr nil) no_project)
        ≡ choose_project (arr nil) no_project)
empty_projects-stick_example = empty_projects-stick later_projects no_project refl
