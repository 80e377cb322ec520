-- ===== src/Submit/Editor.antt =====
-- The buttons of the YAML editor (console/ui/src/widgets/yaml-editor-form/lib/hooks.tsx).
use postgresql_cluster.Common.{Bool, if◌then◌else◌}
use postgresql_cluster.Js.{Js, undefined, Props, field, chain, truthy, to_number}
use postgresql_cluster.Fields.Cluster
use postgresql_cluster.Request.{Platform, is_cloud_request, is_yaml}
use postgresql_cluster.Submit.Session.{
  Io, ◌>>=◌, ◌>>◌, get_created, get_custom, tell, try_catch, Replies, error_caught,
}
use postgresql_cluster.Submit.Actions.{save_secret, create_cluster, finish}
use postgresql_cluster.Submit.Form.{first_secret_id, local_secret_id}

module _ (platform : Platform) (expert : Bool) (current_project : Js) where
  unfoldable pub edited_local_cluster : Replies → Props → Io Unit
  unfolding save_secret create_cluster to_number
  edited_local_cluster replies values = do
    save_secret replies (truthy (field values Cluster.authentication_is_save_to_console))
        (to_number current_project) (field values Cluster.authentication_method)
        (field values Cluster.secret_key_name) values
    created ← get_created
    create_cluster platform expert replies values (local_secret_id values created)
        (to_number current_project) undefined

  unfoldable pub edited_cloud_cluster : Js → Replies → Props → Io Unit
  unfolding create_cluster first_secret_id to_number
  edited_cloud_cluster secrets replies values =
      create_cluster platform expert replies values (first_secret_id secrets)
        (to_number current_project) undefined

  -- The name in the last toast is read after the mapping has deleted from the object.
  unfoldable pub submit_editor : Js → Replies → Props → Io Unit
  unfolding edited_local_cluster edited_cloud_cluster finish is_cloud_request is_yaml
  submit_editor secrets replies values =
      try_catch
        (do
          custom ← get_custom
          (if is_cloud_request values custom
              then edited_cloud_cluster secrets replies values
              else edited_local_cluster replies values)
          left ← get_custom
          finish values (
              if is_yaml values
              then chain left "patroni_cluster_name"
              else field values Cluster.cluster_name))
        (tell error_caught)
