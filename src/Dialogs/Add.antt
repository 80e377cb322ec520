-- ===== src/Dialogs/Add.antt =====
-- Adding: `onSubmit` of console/ui/src/features/add-project/ui/index.tsx, of add-environment and of
-- add-secret, and that of the dialog around the first two.
use postgresql_cluster.Common.{false, if◌then◌else◌}
use postgresql_cluster.Js.{Js, obj, Props, field, truthy, to_number, ◌≔◌, ◌⊕◌, Result}
use postgresql_cluster.Js.Stateful.{pure, ◌>>=◌, ◌>>◌, try_catch}
use postgresql_cluster.Fields.Secret
use postgresql_cluster.Secret.{get_secret_body_from_values}
use postgresql_cluster.Api.Projects.{post_projects}
use postgresql_cluster.Api.Environments.{post_environments}
use postgresql_cluster.Api.Secrets.{post_secrets}
use postgresql_cluster.Dialogs.Session.{succeeded, form_reset, caught, Io, tell, set_open, send}

-- The body that both requests have.
abbrev pub entity_body : Props → Js
entity_body values = obj ("name" ≔ field values "name" ⊕ "description" ≔ field values "description")

unfoldable pub add_project : Result Js → Props → Io (Unit {0})
add_project reply values = do
  response ← send post_projects ("requestProjectCreate" ≔ entity_body values) reply
  tell (succeeded "projectSuccessfullyCreated" (field values "name"))

unfoldable pub add_environment : Result Js → Props → Io (Unit {0})
add_environment reply values = do
  response ← send post_environments ("requestEnvironment" ≔ entity_body values) reply
  tell (succeeded "environmentSuccessfullyCreated" (field values "name"))

-- `onSubmit` of the dialog, whose `submitTrigger` is one of the two above.
unfoldable pub submit_entity : (Props → Io (Unit {0})) → Props → Io (Unit {0})
submit_entity submit_trigger values =
    try_catch (do submit_trigger values; set_open false) (tell caught)

abbrev pub secret_request : Js → Props → Js
secret_request current_project values = obj (
    "project_id" ≔ to_number current_project
    ⊕ "name" ≔ field values Secret.secret_name
    ⊕ "type" ≔ field values Secret.secret_type
    ⊕ "value" ≔ get_secret_body_from_values values)

unfoldable pub add_secret : Js → Result Js → Props → Io (Unit {0})
unfolding to_number get_secret_body_from_values
add_secret current_project reply values =
    try_catch
      (if truthy current_project
        then (do
          response ←
              send post_secrets ("requestSecretCreate" ≔ secret_request current_project values)
                reply
          tell form_reset
          tell (succeeded "secretSuccessfullyCreated" (field values Secret.secret_name))
          set_open false)
        else pure tt)
      (tell caught)
