-- ===== src/ExtraVars/Local.antt =====
-- `getLocalMachineExtraVars`.
use postgresql_cluster.Common.{Bool, true, not, ◌&&◌, if◌then◌else◌}
use postgresql_cluster.Js.{
  Js, bool, num, obj, Props, end, truthy, is_str, field, member, ◌≔◌, ◌⊕◌, when, Result, ok, ◌>>=◌,
  map_items,
}
use postgresql_cluster.Fields.Cluster
use postgresql_cluster.Fields.LoadBalancers
use postgresql_cluster.Fields.Secret
use postgresql_cluster.Fields.Dcs
use postgresql_cluster.Fields.DataDirectory
use postgresql_cluster.Fields.DatabaseServers
use postgresql_cluster.Constants.Authentication
use postgresql_cluster.Constants.DcsTypes
use postgresql_cluster.ExtraVars.Cloud.{get_common_extra_vars}

unfoldable pub etcd_host : Js → Result Js
etcd_host database = do
  host ← member database Dcs.dcs_database_ip_address
  port ← member database Dcs.dcs_database_port
  ok (obj ("host" ≔ host ⊕ "port" ≔ port))

-- The addresses of a DCS that is there already.
unfoldable pub existing_dcs : Props → Result Props
unfolding etcd_host
existing_dcs values =
    if is_str (field values Dcs.type) DcsTypes.etcd
    then (do
      hosts ← map_items etcd_host (field values Dcs.dcs_databases)
      ok ("patroni_etcd_hosts" ≔ hosts))
    else (do
      join ←
          map_items (λ database. member database Dcs.dcs_database_ip_address)
            (field values Dcs.dcs_databases)
      ok ("consul_join" ≔ join ⊕ "consul_ports_serf_lan" ≔ num 8301))

unfoldable pub expert_local_extra_vars : Props → Result Props
unfolding existing_dcs
expert_local_extra_vars values = do
  dcs ←
      (if truthy (field values Dcs.is_deploy_new_cluster)
        then ok end
        else do hosts ← existing_dcs values; ok ("dcs_exists" ≔ bool true ⊕ hosts))
  ok (
      "dcs_type" ≔ field values Dcs.type
      ⊕ dcs
      ⊕ "postgresql_data_dir" ≔ field values DataDirectory.data_directory)

-- Whether the user name and password of the form are those to connect with: no secret is used.
unfoldable pub uses_typed_password : Props → Js → Bool
uses_typed_password values secret_id =
    not (truthy secret_id)
    && not (truthy (field values Cluster.is_use_defined_secret))
    && is_str (field values Cluster.authentication_method) Authentication.password

unfoldable pub get_local_machine_extra_vars : Bool → Props → Js → Result Props
unfolding get_common_extra_vars uses_typed_password expert_local_extra_vars
get_local_machine_extra_vars expert values secret_id = do
  for_expert ← (if expert then expert_local_extra_vars values else ok end)
  ok (
      get_common_extra_vars values
      ⊕ when (truthy (field values Cluster.cluster_vip_address))
          ("cluster_vip" ≔ field values Cluster.cluster_vip_address)
      ⊕ when (truthy (field values LoadBalancers.is_haproxy_enabled))
          ("with_haproxy_load_balancing" ≔ bool true)
      ⊕ when (truthy (field values DatabaseServers.is_cluster_exists))
          ("existing_cluster" ≔ bool true)
      ⊕ when (uses_typed_password values secret_id) (
          "ansible_user" ≔ field values Secret.username
          ⊕ "ansible_ssh_pass" ≔ field values Secret.password)
      ⊕ for_expert)
