-- ===== src/Validation/Local.antt =====
-- `LocalFormSchema`, less the schemas of the blocks that it is joined with.
use postgresql_cluster.Common.{Bool, not, ◌&&◌, ◌||◌, String}
use postgresql_cluster.Js.{Js, Props, field, is_str, truthy}
use postgresql_cluster.Schemas.{Yup}
use postgresql_cluster.Fields.Cluster
use postgresql_cluster.Fields.Secret
use postgresql_cluster.Constants.Authentication
use postgresql_cluster.Validation.Cloud.{is_local, on}

abbrev pub uses_method : String → Props → Bool
uses_method method values =
    is_local values && is_str (field values Cluster.authentication_method) method

abbrev pub uses_defined : Props → Bool
uses_defined values = truthy (field values Cluster.is_use_defined_secret)

module _ (yup : Yup) where
  -- A credential of a method, which is required unless a defined secret is used.
  abbrev pub credential_test : Props → String → Js → Bool
  credential_test values method v =
      on yup (uses_method method values) (on yup (not (uses_defined values)) yup.required_string) v

  abbrev pub vip_test : Js → Bool
  vip_test v = yup.string v && (not (truthy v) || yup.is_v4 v)

  unfoldable pub local_fields_schema : Props → Bool
  local_fields_schema values =
      on yup (is_local values) yup.required_string (field values Cluster.authentication_method)
      && credential_test values Authentication.ssh (field values Secret.ssh_private_key)
      && credential_test values Authentication.password (field values Secret.username)
      && credential_test values Authentication.password (field values Secret.password)
      && on yup (is_local values && not (uses_defined values)) yup.boolean
          (field values Cluster.authentication_is_save_to_console)
      && on yup (is_local values && truthy (field values Cluster.authentication_is_save_to_console))
          yup.required_string (field values Cluster.secret_key_name)
      && on yup (is_local values) vip_test (field values Cluster.cluster_vip_address)
      && on yup (is_local values) yup.boolean (field values Cluster.is_use_defined_secret)
      && on yup (is_local values && uses_defined values) yup.required_string
          (field values Cluster.secret_id)
