-- ===== src/Dialogs/Laws.antt =====
-- What the dialogs and the menus say, and what they send.
use postgresql_cluster.Common.{Bool, true, false, ◌≡◌, refl, List, [], ◌∷◌, if◌then◌else◌}
use postgresql_cluster.Js.{Js, Props, field, truthy, to_number, Result, ok, thrown}
use postgresql_cluster.Dialogs.Session.{Effect, sent, succeeded, Dialog, opened, Io}
use postgresql_cluster.Dialogs.Add.{add_project, add_environment, submit_entity, add_secret}
use postgresql_cluster.Dialogs.Remove.{
  remove_environment, remove_project, remove_secret, remove_server, remove_cluster, string_of,
  same_number,
}

abbrev pub replied : Result Js → Bool
replied (ok response) = true
replied thrown = false

-- Whether the effects say that something succeeded, and whether they send a request.
abbrev pub says_success : List Effect → Bool
says_success [] = false
says_success (succeeded text name ∷ done) = true
says_success (e ∷ done) = says_success done

abbrev pub sends : List Effect → Bool
sends [] = false
sends (sent request ∷ done) = true
sends (e ∷ done) = sends done

-- What a handler leaves of a dialog that was just opened.
abbrev pub after_run : Io (Unit {0}) → Dialog
after_run m = (m opened).0

-- A dialog says that what it posts was created exactly if the service replies so, and then it
-- closes; otherwise it stays open.
abbrev pub IsHonest : Result Js → Dialog → Type 0
IsHonest reply d =
    (says_success d.done ≡ replied reply) × (d.is_open ≡ (if replied reply then false else true))

-- The dialogs for a project and an environment, and that for a secret if there is a current
-- project, say that they succeeded and close exactly if the service accepts the request;
-- otherwise they stay open.
pub add-IsHonest :
    (current_project : Js) (reply : Result Js) (values : Props)
    → truthy current_project ≡ true
    → IsHonest reply (after_run (submit_entity (add_project reply) values))
      × IsHonest reply (after_run (submit_entity (add_environment reply) values))
      × IsHonest reply (after_run (add_secret current_project reply values))
unfolding submit_entity add_project add_environment add_secret
add-IsHonest current_project (ok response) values there =
    rw there ((refl, refl), (refl, refl), (refl, refl))
add-IsHonest current_project thrown values there =
    rw there ((refl, refl), (refl, refl), (refl, refl))

-- No request, and no word of success.
abbrev pub IsSilent : Dialog → Type 0
IsSilent d = (sends d.done ≡ false) × (says_success d.done ≡ false)

-- No request is sent to remove the current project, none to remove a secret that clusters use,
-- and none to add a secret if there is no current project; and none of these says that it
-- succeeded, whatever the service would reply.
pub refused-IsSilent :
    (active missing : Js) (reply : Result Js) (values project secret : Props)
    → same_number (to_number active) (field project "id") ≡ true
    → string_of (field secret "used") ≡ ok "true"
    → truthy missing ≡ false
    → IsSilent (after_run (remove_project active reply project))
      × IsSilent (after_run (remove_secret reply secret))
      × IsSilent (after_run (add_secret missing reply values))
unfolding remove_project remove_secret add_secret
refused-IsSilent active missing reply values project secret current used no_project =
    rw (current, used, no_project) ((refl, refl), (refl, refl), (refl, refl))

-- If it sends a request, a row's button for an environment, a project, a secret or a server says
-- that it succeeded exactly if the service accepts the request. The button for a cluster says so
-- whatever the service replies.
pub remove-says_success :
    (current_project cluster_id cluster_name : Js) (reply cluster : Result Js) (row : Props)
    → same_number (to_number current_project) (field row "id") ≡ false
    → string_of (field row "used") ≡ ok "false"
    → (says_success (after_run (remove_environment reply row)).done ≡ replied reply)
      × (says_success (after_run (remove_project current_project reply row)).done ≡ replied reply)
      × (says_success (after_run (remove_secret reply row)).done ≡ replied reply)
      × (says_success (after_run (remove_server cluster_id reply cluster row)).done ≡ replied reply)
      × (says_success (after_run (remove_cluster cluster_id cluster_name reply)).done ≡ true)
unfolding remove_environment remove_project remove_secret remove_server remove_cluster
remove-says_success current_project cluster_id cluster_name (ok response) cluster row other unused =
    rw (other, unused) (refl, refl, refl, refl, refl)
remove-says_success current_project cluster_id cluster_name thrown cluster row other unused =
    rw (other, unused) (refl, refl, refl, refl, refl)
