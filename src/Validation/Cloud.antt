-- ===== src/Validation/Cloud.antt =====
-- `CloudFormSchema`.
use postgresql_cluster.Common.{Bool, not, ◌&&◌, if◌then◌else◌}
use postgresql_cluster.Js.{Js, Props, field, chain, is_str}
use postgresql_cluster.Schemas.{Yup}
use postgresql_cluster.Fields.Cluster
use postgresql_cluster.Fields.Amount
use postgresql_cluster.Fields.Storage
use postgresql_cluster.Fields.Instances
use postgresql_cluster.Fields.SshKey
use postgresql_cluster.Constants.Providers

-- `provider?.code === PROVIDERS.LOCAL`
abbrev pub is_local : Props → Bool
is_local values = is_str (chain (field values Cluster.provider) "code") Providers.local

module _ (yup : Yup) where
  -- A field that is tested on a condition, and otherwise `notRequired`.
  abbrev pub on : Bool → (Js → Bool) → Js → Bool
  on b test v = if b then test v else yup.optional_mixed v

  abbrev region_config_test : Js → Bool
  region_config_test v =
      yup.required_object v && yup.string (chain v "code") && yup.string (chain v "location")

  abbrev instance_config_test : Js → Bool
  instance_config_test v =
      yup.required_object v
      && yup.string (chain v "code")
      && yup.number (chain v "cpu")
      && yup.boolean (chain v "shared_cpu")
      && yup.string (chain v "currency")
      && yup.number (chain v "price_hourly")
      && yup.number (chain v "price_monthly")
      && yup.number (chain v "ram")

  unfoldable pub cloud_form_schema : Props → Bool
  cloud_form_schema values =
      on (not (is_local values)) yup.required_string (field values Cluster.region)
      && on (not (is_local values)) region_config_test (field values Cluster.region_config)
      && on (not (is_local values)) yup.required_string (field values Instances.instance_type)
      && on (not (is_local values)) instance_config_test (field values Cluster.instance_config)
      && on (not (is_local values)) yup.required_number (field values Amount.instances_amount)
      && on (not (is_local values)) yup.required_number (field values Storage.storage_amount)
      && on (not (is_local values)) yup.required_string (field values SshKey.ssh_public_key)
