-- ===== src/Validation/Form.antt =====
-- `LocalFormSchema` and `ClusterFormSchema`.
use Prim.Native.Char.{code}
use Prim.Native.String.{[], ◌∷◌}
use postgresql_cluster.Common.{
  ℕ, ◌-◌, Bool, true, false, ◌&&◌, ◌||◌, if◌then◌else◌, String, leb, nat_eq,
}
use postgresql_cluster.Js.{Js, str, Props, field}
use postgresql_cluster.Schemas.{Yup}
use postgresql_cluster.Fields.Cluster
use postgresql_cluster.Validation.Cloud.{cloud_form_schema}
use postgresql_cluster.Validation.Local.{local_fields_schema}
use postgresql_cluster.Validation.Servers.{
  database_servers_block_schema, load_balancer_block_schema, dcs_block_schema,
}
use postgresql_cluster.Validation.Expert.{
  databases_block_schema, connection_pools_block_schema, backups_block_form_schema,
  postgres_parameters_block_form_schema, kernel_parameters_block_form_schema,
  additional_settings_block_form_schema,
}

-- `[a-z0-9]` and `[a-z0-9-]`
abbrev is_alphanumeric : ℕ → Bool
is_alphanumeric c = leb 97 c && leb c 122 || leb 48 c && leb c 57

-- `[a-z0-9-]{0,n}$`
unfoldable pub name_rest : ℕ → String → Bool
name_rest n [] = true
name_rest n (c ∷ s) =
    let rest = name_rest (n - 1) s in
    (is_alphanumeric (code c) || nat_eq (code c) 45) && leb 1 n && rest

-- `/^[a-z0-9][a-z0-9-]{0,23}$/`
unfoldable pub is_cluster_name : String → Bool
unfolding name_rest
is_cluster_name [] = false
is_cluster_name (c ∷ s) = is_alphanumeric (code c) && name_rest 23 s

abbrev name_test : Js → Bool
name_test (str s) = is_cluster_name s
name_test v = false

module _ (yup : Yup) (expert : Bool) where
  unfoldable pub local_form_schema : Props → Bool
  unfolding local_fields_schema database_servers_block_schema load_balancer_block_schema
      dcs_block_schema
  local_form_schema values =
      local_fields_schema yup values
      && database_servers_block_schema yup values
      && load_balancer_block_schema yup expert values
      && dcs_block_schema yup expert values

  unfoldable pub default_schema : Props → Bool
  unfolding cloud_form_schema local_form_schema is_cluster_name
  default_schema values =
      yup.required_object (field values Cluster.provider)
      && yup.number (field values Cluster.environment_id)
      && yup.required_string (field values Cluster.cluster_name)
      && name_test (field values Cluster.cluster_name)
      && yup.string (field values Cluster.description)
      && yup.required_number (field values Cluster.postgres_version)
      && cloud_form_schema yup values
      && local_form_schema values

  unfoldable pub expert_schema : Props → Bool
  unfolding databases_block_schema connection_pools_block_schema backups_block_form_schema
      postgres_parameters_block_form_schema kernel_parameters_block_form_schema
      additional_settings_block_form_schema
  expert_schema values =
      databases_block_schema yup values
      && connection_pools_block_schema yup values
      && backups_block_form_schema yup values
      && postgres_parameters_block_form_schema yup values
      && kernel_parameters_block_form_schema yup values
      && additional_settings_block_form_schema yup values

  unfoldable pub cluster_form_schema : Props → Bool
  unfolding default_schema expert_schema
  cluster_form_schema values =
      if expert then default_schema values && expert_schema values else default_schema values
