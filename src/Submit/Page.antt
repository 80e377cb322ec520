-- ===== src/Submit/Page.antt =====
-- The form's own submit handler and its buttons, which depend on the provider and on its secrets
-- (console/ui/src/widgets/cluster-form/ui/index.tsx).
use postgresql_cluster.Common.{Bool, true, false, not, ◌&&◌, if◌then◌else◌, Option, some, none}
use postgresql_cluster.Js.{Js, Props, chain, is_str, arr, cons, nil}
use postgresql_cluster.Constants.Providers
use postgresql_cluster.Request.{Platform}
use postgresql_cluster.Submit.Session.{Io, Replies}
use postgresql_cluster.Submit.Form.{on_submit}

-- `secrets?.data?.data?.length`, tested for 1.
abbrev pub has_one_secret : Js → Bool
has_one_secret (arr (cons secret nil)) = true
has_one_secret _ = false

-- The dialog for a secret, whose own submission creates the cluster, or the form's buttons.
pub data Buttons : Type 0 where
  secret_dialog : Buttons
  default_buttons : Buttons

-- `watchProvider?.code !== PROVIDERS.LOCAL && secrets?.data?.data?.length !== 1`
unfoldable pub needs_dialog : Js → Js → Bool
needs_dialog provider secrets =
    not (is_str (chain provider "code") Providers.local) && not (has_one_secret secrets)

unfoldable pub form_buttons : Js → Js → Buttons
unfolding needs_dialog
form_buttons provider secrets =
    if needs_dialog provider secrets then secret_dialog else default_buttons

-- The form's `onSubmit`, for values that the schema accepts.
unfoldable pub form_handler : Platform → Bool → Js → Js → Js → Option (Replies → Props → Io Unit)
unfolding needs_dialog on_submit
form_handler platform expert current_project provider secrets =
    if needs_dialog provider secrets
    then none
    else some (on_submit platform expert current_project secrets)
