-- ===== src/Submit/Modal.antt =====
-- The dialog for a secret (console/ui/src/features/cluster-secret-modal/ui/index.tsx).
use postgresql_cluster.Common.{Bool, true, false, not, ◌&&◌, if◌then◌else◌}
use postgresql_cluster.Js.{
  Js, undefined, str, Props, field, chain, truthy, nullish, member, to_number, Result, arr, obj,
  cons, ok,
}
use postgresql_cluster.Fields.Cluster
use postgresql_cluster.Fields.Secret
use postgresql_cluster.Fields.Modal
use postgresql_cluster.Constants.Providers
use postgresql_cluster.Request.{Platform, is_yaml}
use postgresql_cluster.Submit.Session.{
  Io, pure, ◌>>=◌, ◌>>◌, lift, get_created, get_custom, tell, try_catch, Replies, error_caught,
  modal_closed,
}
use postgresql_cluster.Submit.Actions.{save_secret, create_cluster, created_id, finish}

-- `secrets.data?.data?.length`, as a test.
abbrev pub has_secrets : Js → Bool
has_secrets (arr (cons secret rest)) = true
has_secrets _ = false

-- The type of the secret; `.code` of a form without a provider throws.
unfoldable pub modal_secret_type : Props → Js → Result Js
unfolding is_yaml
modal_secret_type values custom =
    if is_yaml values
    then ok (nullish (chain custom "cloud_provider") (str Providers.local))
    else member (field values Cluster.provider) "code"

-- What the two spreads at the end give for `secretId`; `secretsInfo` is the same in both.
unfoldable pub modal_secret_id : Js → Props → Js → Js
modal_secret_id secrets secrets_fields created =
    if not (has_secrets secrets) && not (truthy (created_id created))
    then undefined
    else nullish (created_id created) (field secrets_fields Cluster.secret_id)

module _ (platform : Platform) (expert : Bool) (current_project : Js) where
  -- The type is computed only if the secret is saved.
  unfoldable pub save_modal_secret : Replies → Props → Props → Io Unit
  unfolding save_secret modal_secret_type to_number
  save_modal_secret replies values secrets_fields = do
    custom ← get_custom
    created ← get_created
    (if truthy (field secrets_fields Modal.is_save_to_console) && not (truthy created)
        then (do
          type ← lift (modal_secret_type values custom)
          save_secret replies true (to_number current_project) type
              (field secrets_fields Secret.secret_name) secrets_fields)
        else pure tt)

  unfoldable pub submit_modal : Js → Replies → Props → Props → Io Unit
  unfolding save_modal_secret create_cluster modal_secret_id finish to_number
  submit_modal secrets replies values secrets_fields = do
    try_catch
        (do
          save_modal_secret replies values secrets_fields
          created ← get_created
          create_cluster platform expert replies values
              (modal_secret_id secrets secrets_fields created) (to_number current_project)
              (obj secrets_fields)
          left ← get_custom
          finish values (
              if is_yaml values
              then chain left "patroni_cluster_name"
              else field values Cluster.cluster_name))
        (tell error_caught)
    tell modal_closed
