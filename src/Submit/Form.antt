-- ===== src/Submit/Form.antt =====
-- The form's own buttons (console/ui/src/widgets/cluster-form/ui/index.tsx). It has no custom
-- variables, so its session holds `undefined` there.
use postgresql_cluster.Common.{Bool, if◌then◌else◌}
use postgresql_cluster.Js.{
  Js, undefined, Props, field, chain, truthy, is_str, nullish, member, to_number, arr, cons,
}
use postgresql_cluster.Fields.Cluster
use postgresql_cluster.Constants.Providers
use postgresql_cluster.Request.{Platform}
use postgresql_cluster.Submit.Session.{
  Io, ◌>>=◌, ◌>>◌, lift, get_created, tell, try_catch, Replies, error_caught,
}
use postgresql_cluster.Submit.Actions.{save_secret, create_cluster, created_id, finish}

-- `secrets?.data?.data?.[0]?.id`, of the answer to the query for the provider's secrets.
unfoldable pub first_secret_id : Js → Js
first_secret_id (arr (cons secret rest)) = chain secret "id"
first_secret_id _ = undefined

-- `createSecretResultRef.current?.id ?? Number(values[SECRET_ID])`
abbrev pub local_secret_id : Props → Js → Js
local_secret_id values created =
    nullish (created_id created) (to_number (field values Cluster.secret_id))

module _ (platform : Platform) (expert : Bool) (current_project : Js) where
  unfoldable pub submit_local_cluster : Replies → Props → Io Unit
  unfolding save_secret create_cluster to_number
  submit_local_cluster replies values = do
    save_secret replies (truthy (field values Cluster.authentication_is_save_to_console))
        (to_number current_project) (field values Cluster.authentication_method)
        (field values Cluster.secret_key_name) values
    created ← get_created
    create_cluster platform expert replies values (local_secret_id values created)
        (to_number current_project) undefined

  unfoldable pub submit_cloud_cluster : Js → Replies → Props → Io Unit
  unfolding create_cluster first_secret_id to_number
  submit_cloud_cluster secrets replies values =
      create_cluster platform expert replies values (first_secret_id secrets)
        (to_number current_project) undefined

  unfoldable pub on_submit : Js → Replies → Props → Io Unit
  unfolding submit_local_cluster submit_cloud_cluster finish
  on_submit secrets replies values =
      try_catch
        (do
          code ← lift (member (field values Cluster.provider) "code")
          (if is_str code Providers.local
              then submit_local_cluster replies values
              else submit_cloud_cluster secrets replies values)
          finish values (field values Cluster.cluster_name))
        (tell error_caught)
