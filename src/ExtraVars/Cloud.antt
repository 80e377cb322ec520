-- ===== src/ExtraVars/Cloud.antt =====
-- `getCommonExtraVars` and `getCloudProviderExtraVars`.
use postgresql_cluster.Common.{String, Bool, true, not, ◌&&◌, ◌||◌, ◌==◌, map, if◌then◌else◌}
use postgresql_cluster.Js.{
  Js, undefined, bool, str, arr, obj, cons, Props, end, prop, from_list, truthy, is_str, field,
  chain, member, ◌≔◌, ◌⊕◌, when, Result, ok, thrown, ◌>>=◌,
}
use postgresql_cluster.Js.Text.{split_by, is_newline, ◌⧺◌}
use postgresql_cluster.Fields.Cluster
use postgresql_cluster.Fields.Instances
use postgresql_cluster.Fields.Storage
use postgresql_cluster.Fields.SshKey
use postgresql_cluster.Fields.Amount
use postgresql_cluster.Fields.Network
use postgresql_cluster.Fields.Additional
use postgresql_cluster.Constants.Providers

unfoldable pub get_common_extra_vars : Props → Props
get_common_extra_vars values =
    "postgresql_version" ≔ field values Cluster.postgres_version
    ⊕ "patroni_cluster_name" ≔ field values Cluster.cluster_name

-- `PROVIDER_CODE_TO_ANSIBLE_USER_MAP`
abbrev pub provider_code_to_ansible_user_map : Props
provider_code_to_ansible_user_map = prop Providers.aws (str "ubuntu") (
    prop Providers.gcp (str "root") (
      prop Providers.azure (str "azureadmin")
        (prop Providers.digital_ocean (str "root") (prop Providers.hetzner (str "root") end))))

-- `o[v]`, for an object without a property named like the text of a value that is no string.
abbrev pub index : Props → Js → Js
index ps (str k) = field ps k
index ps _ = undefined

-- `...v`: only the properties of an object are spread.
abbrev pub spread : Js → Props
spread (obj ps) = ps
spread _ = end

unfoldable pub server_type : Props → Result Js
server_type values =
    if is_str (field values Cluster.instance_type) "custom"
    then ok (field values Instances.server_type)
    else member (field values Cluster.instance_config) "code"

abbrev quoted_key : String → Js
quoted_key key = str ("'" ⧺ key ⧺ "'")

-- The keys of the text area, one to a line; an array has no `split`.
unfoldable pub ssh_public_keys : Js → Result Props
ssh_public_keys (str s) = ok (
    when (not (s == ""))
      ("ssh_public_keys" ≔ arr (from_list (map quoted_key (split_by is_newline s)))))
ssh_public_keys (arr (cons x xs)) = thrown
ssh_public_keys _ = ok end

unfoldable pub has_spot_instances : Js → Bool
has_spot_instances code =
    is_str code Providers.aws || is_str code Providers.gcp || is_str code Providers.azure

unfoldable pub expert_cloud_extra_vars : Props → Props
unfolding has_spot_instances
expert_cloud_extra_vars values =
    "postgresql_data_dir_mount_fstype" ≔ field values Storage.file_system_type
    ⊕ "volume_type" ≔ field values Storage.volume_type
    ⊕ "database_public_access" ≔ bool (truthy (field values Additional.is_db_public_access))
    ⊕ "cloud_load_balancer" ≔ bool (truthy (field values Additional.is_cloud_load_balancer))
    ⊕ when
        (has_spot_instances (chain (field values Cluster.provider) "code")
          && truthy (field values Amount.is_spot_instances))
        ("server_spot" ≔ bool true)
    ⊕ when (truthy (field values Network.server_network))
        ("server_network" ≔ field values Network.server_network)

unfoldable pub get_cloud_provider_extra_vars : Bool → Props → Result Props
unfolding get_common_extra_vars server_type ssh_public_keys expert_cloud_extra_vars
get_cloud_provider_extra_vars expert values = do
  code ← member (field values Cluster.provider) "code"
  server ← server_type values
  location ← member (field values Cluster.region_config) "code"
  keys ← ssh_public_keys (field values SshKey.ssh_public_key)
  cloud_image ← member (field values Cluster.region_config) "cloud_image"
  image ← member cloud_image "image"
  ok (
      get_common_extra_vars values
      ⊕ "cloud_provider" ≔ code
      ⊕ "server_type" ≔ server
      ⊕ "server_location" ≔ location
      ⊕ "server_count" ≔ field values Amount.instances_amount
      ⊕ "volume_size" ≔ field values Storage.storage_amount
      ⊕ "ansible_user" ≔ index provider_code_to_ansible_user_map code
      ⊕ keys
      ⊕ spread image
      ⊕ when expert (expert_cloud_extra_vars values))
