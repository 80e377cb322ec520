-- ===== src/Request/Fields.antt =====
-- The fields of the request. `customExtraVars` is `undefined` or the object that the YAML editor
-- holds; the mapping deletes properties of that object, so it is returned with the request.
use postgresql_cluster.Common.{
  String, Bool, false, not, ◌&&◌, ◌||◌, ◌==◌, List, [], ◌∷◌, if◌then◌else◌,
}
use postgresql_cluster.Js.{
  Js, undefined, null, bool, str, arr, obj, from_list, Props, truthy, is_str, field, chain, delete,
  entries, ◌≔◌, ◌⊕◌, when, Result, ok, ◌>>=◌, to_string,
}
use postgresql_cluster.Fields.Cluster
use postgresql_cluster.Fields.DatabaseServers
use postgresql_cluster.Constants.Providers
use postgresql_cluster.Constants.CreationTypes
use postgresql_cluster.ExtraVars.{
  spread, get_base_cluster_extra_vars, get_cloud_provider_extra_vars, get_local_machine_extra_vars,
}
use postgresql_cluster.Inventory.{get_local_machine_envs}
use postgresql_cluster.Request.Imports.{Platform}
use postgresql_cluster.Request.Envs.{
  convert_object_value_to_base64_format, filter_secrets, plain_envs,
}

abbrev pub texts : List String → List Js
texts [] = []
texts (s ∷ ss) = str s ∷ texts ss

-- `extra_vars: customExtraVars ?? ...`: the right side is computed only if it is needed.
abbrev pub custom_or : Js → Result Props → Result Js
custom_or undefined vars = do found ← vars; ok (obj found)
custom_or null vars = do found ← vars; ok (obj found)
custom_or custom vars = ok custom

unfoldable pub cloud_extra_vars : Bool → Props → Result Props
unfolding get_base_cluster_extra_vars get_cloud_provider_extra_vars
cloud_extra_vars expert values = do
  base ← get_base_cluster_extra_vars expert values
  cloud ← get_cloud_provider_extra_vars expert values
  ok (base ⊕ cloud)

unfoldable pub local_extra_vars : Bool → Props → Js → Result Props
unfolding get_base_cluster_extra_vars get_local_machine_extra_vars
local_extra_vars expert values secret_id = do
  base ← get_base_cluster_extra_vars expert values
  local ← get_local_machine_extra_vars expert values secret_id
  ok (base ⊕ local)

-- `mapFormValuesToYamlEditor`
unfoldable pub map_form_values_to_yaml_editor : Bool → Props → Result Props
unfolding cloud_extra_vars local_extra_vars
map_form_values_to_yaml_editor expert values =
    if is_str (chain (field values Cluster.provider) "code") Providers.local
    then local_extra_vars expert values undefined
    else cloud_extra_vars expert values

-- `customExtraVars?.existing_cluster?.toString() === 'true'`
unfoldable pub says_existing : Js → Bool
unfolding to_string
says_existing undefined = false
says_existing null = false
says_existing v = to_string v == "true"

unfoldable pub is_yaml : Props → Bool
is_yaml values = is_str (field values Cluster.creation_type) CreationTypes.yaml

-- The name, environment and description.
unfoldable pub identity_fields : Props → Js → Props
unfolding is_yaml
identity_fields values custom =
    if is_yaml values
    then "name" ≔ chain custom "patroni_cluster_name"
      ⊕ "environment_id" ≔ chain custom "environment_id"
      ⊕ "description" ≔ chain custom "description"
    else "name" ≔ field values Cluster.cluster_name
      ⊕ "environment_id" ≔ field values Cluster.environment_id
      ⊕ "description" ≔ field values Cluster.description

-- The test between a cluster of a cloud provider and one on servers of one's own.
unfoldable pub is_cloud_request : Props → Js → Bool
unfolding is_yaml
is_cloud_request values custom =
    is_yaml values && truthy (chain custom "cloud_provider")
    || is_str (field values Cluster.creation_type) CreationTypes.form
      && not (is_str (chain (field values Cluster.provider) "code") Providers.local)

abbrev delete_from : String → Js → Js
delete_from key (obj ps) = obj (delete ps key)
delete_from key v = v

module _ (platform : Platform) where
  unfoldable pub cloud_envs : Props → Js → Result (List String)
  unfolding convert_object_value_to_base64_format filter_secrets plain_envs
  cloud_envs values secrets_info =
      if is_str (chain (field values Cluster.provider) "code") Providers.gcp
      then convert_object_value_to_base64_format platform (filter_secrets (spread secrets_info))
      else ok (plain_envs (entries (filter_secrets (spread secrets_info))))

  unfoldable pub get_request_cloud_params : Bool → Props → Js → Js → Result Props
  unfolding cloud_envs cloud_extra_vars
  get_request_cloud_params expert values secrets_info custom = do
    envs ← cloud_envs values secrets_info
    vars ← custom_or custom (cloud_extra_vars expert values)
    ok ("envs" ≔ arr (from_list (texts envs)) ⊕ "extra_vars" ≔ vars)

  unfoldable pub get_request_local_machine_params : Bool → Props → Js → Js → Result Props
  unfolding get_local_machine_envs convert_object_value_to_base64_format local_extra_vars
      says_existing is_yaml
  get_request_local_machine_params expert values secret_id custom = do
    object ← get_local_machine_envs expert values secret_id
    envs ← convert_object_value_to_base64_format platform object
    vars ← custom_or custom (local_extra_vars expert values secret_id)
    ok (
        "envs" ≔ arr (from_list (texts envs))
        ⊕ "extra_vars" ≔ vars
        ⊕ "existing_cluster"
          ≔ bool (
              if is_yaml values
              then says_existing (chain custom "existing_cluster")
              else truthy (field values DatabaseServers.is_cluster_exists)))

  -- `if (!isEmpty(customExtraVars)) delete customExtraVars[field]`
  unfoldable pub delete_field : String → Js → Js
  delete_field key custom = if platform.is_empty custom then custom else delete_from key custom

  -- What the mapping leaves of the custom variables.
  unfoldable pub left_of : Js → Js
  unfolding delete_field
  left_of custom = delete_field "description" (delete_field "environment_id" custom)

  unfoldable pub base_object : Props → Js → Js → Js → Props
  unfolding identity_fields
  base_object values secret_id project_id custom =
      identity_fields values custom
      ⊕ when (truthy secret_id) ("auth_info" ≔ obj ("secret_id" ≔ secret_id))
      ⊕ "project_id" ≔ project_id

  unfoldable pub map_form_values_to_request_fields :
      Bool → Props → Js → Js → Js → Js → Result (Props × Js)
  unfolding base_object left_of is_cloud_request get_request_cloud_params
      get_request_local_machine_params
  map_form_values_to_request_fields expert values secret_id project_id secrets_info custom = do
    let base = base_object values secret_id project_id custom
    let custom' = left_of custom
    params ←
        (if is_cloud_request values custom'
          then get_request_cloud_params expert values secrets_info custom'
          else get_request_local_machine_params expert values secret_id custom')
    ok (base ⊕ params, custom')
