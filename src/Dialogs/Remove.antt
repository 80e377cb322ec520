-- ===== src/Dialogs/Remove.antt =====
-- Removing: the `handleButtonClick` of the rows of the tables. A menu has no dialog of its own; of
-- the clusters' button the dialog asks first.
use postgresql_cluster.Common.{String, Bool, false, ◌==◌, nat_eq, if◌then◌else◌}
use postgresql_cluster.Js.{
  Js, undefined, null, num, Props, field, to_number, to_string, ◌≔◌, Result, ok, thrown,
}
use postgresql_cluster.Js.Stateful.{pure, ◌>>=◌, ◌>>◌, lift, try_catch}
use postgresql_cluster.Api.Projects.{delete_projects_by_id}
use postgresql_cluster.Api.Environments.{delete_environments_by_id}
use postgresql_cluster.Api.Secrets.{delete_secrets_by_id}
use postgresql_cluster.Api.Clusters.{delete_clusters_by_id, get_clusters_by_id}
use postgresql_cluster.Api.Other.{delete_servers_by_id}
use postgresql_cluster.Dialogs.Used.{using_count, using_names}
use postgresql_cluster.Dialogs.Session.{
  succeeded, warned, caught, menu_closed, Io, tell, set_open, send, send_settled,
}

-- `v.toString()`
abbrev pub string_of : Js → Result String
string_of undefined = thrown
string_of null = thrown
string_of v = ok (to_string v)

-- `a === b`, for a number `a` or NaN
abbrev pub same_number : Js → Js → Bool
same_number (num m) (num n) = nat_eq m n
same_number a b = false

-- A handler that ends with `finally { closeMenu(); }`
abbrev pub in_menu : Io (Unit {0}) → Io (Unit {0})
in_menu body = try_catch body (tell caught) >> tell menu_closed

-- features/environments-table-row-actions/ui/index.tsx
unfoldable pub remove_environment : Result Js → Props → Io (Unit {0})
remove_environment reply row = in_menu (do
  response ← send delete_environments_by_id ("id" ≔ field row "id") reply
  tell (succeeded "environmentSuccessfullyRemoved" (field row "name")))

-- features/pojects-table-row-actions/ui/index.tsx: the current project is not removed.
unfoldable pub remove_project : Js → Result Js → Props → Io (Unit {0})
unfolding to_number
remove_project current_project reply row = in_menu (
    if same_number (to_number current_project) (field row "id") then lift thrown else (do
      response ← send delete_projects_by_id ("id" ≔ field row "id") reply
      tell (succeeded "projectSuccessfullyRemoved" (field row "name"))))

-- features/settings-table-row-actions/ui/index.tsx: a secret that clusters use is not removed.
unfoldable pub remove_secret : Result Js → Props → Io (Unit {0})
unfolding to_string
remove_secret reply row = in_menu (do
  used ← lift (string_of (field row "used"))
  (if used == "true"
      then tell (
          warned "secretsSecretIsUsed" (using_count (field row "usedBy"))
            (using_names (field row "usedBy")))
      else (do
        response ← send delete_secrets_by_id ("id" ≔ field row "id") reply
        tell (succeeded "secretSuccessfullyRemoved" (field row "name")))))

-- features/clusters-overview-table-row-actions/ui/index.tsx: the cluster is loaded again.
unfoldable pub remove_server : Js → Result Js → Result Js → Props → Io (Unit {0})
remove_server cluster_id reply cluster row = in_menu (do
  response ← send delete_servers_by_id ("id" ≔ field row "id") reply
  tell (succeeded "serverSuccessfullyRemoved" (field row "name"))
  loaded ← send_settled get_clusters_by_id ("id" ≔ cluster_id) cluster
  pure tt)

-- features/clusters-table-row-actions/ui/ClusterTableRemoveButton.tsx: `handleModalOpenState`, and
-- `handleButtonClick`, which does not unwrap the reply.
unfoldable pub handle_modal_open_state : Bool → Io (Unit {0})
handle_modal_open_state state = do set_open state; (if state then pure tt else tell menu_closed)

unfoldable pub remove_cluster : Js → Js → Result Js → Io (Unit {0})
remove_cluster cluster_id cluster_name reply =
    try_catch
      (do
        response ← send_settled delete_clusters_by_id ("id" ≔ cluster_id) reply
        tell menu_closed
        tell (succeeded "clusterSuccessfullyRemoved" cluster_name))
      (tell caught)
