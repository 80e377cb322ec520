-- ===== src/ExtraVars/Base.antt =====
-- `getBaseClusterExtraVars`.
use postgresql_cluster.Common.{Bool, true, List, [], ◌∷◌, if◌then◌else◌}
use postgresql_cluster.Js.{
  Js, bool, arr, obj, from_list, Props, end, truthy, field, chain, ◌≔◌, ◌⊕◌, when, Result, ok,
  ◌>>=◌, map_items,
}
use postgresql_cluster.Fields.Cluster
use postgresql_cluster.Fields.Databases
use postgresql_cluster.Fields.Pools
use postgresql_cluster.Fields.Additional
use postgresql_cluster.Fields.PostgresParameters
use postgresql_cluster.Fields.KernelParameters
use postgresql_cluster.Params.{convert_modal_parameters_to_array}
use postgresql_cluster.ExtraVars.Extensions.{Chosen, get_extensions}
use postgresql_cluster.ExtraVars.Backups.{backup_extra_vars}

abbrev pub base_extra_vars : Props → Props
base_extra_vars values =
    "environment_id" ≔ field values Cluster.environment_id
    ⊕ "description" ≔ field values Cluster.description

unfoldable pub postgresql_database : Js → Result Js
postgresql_database db = ok (
    obj (
      "db" ≔ chain db Databases.database_name
      ⊕ "owner" ≔ chain db Databases.user_name
      ⊕ "encoding" ≔ chain db Databases.encoding
      ⊕ "lc_ctype" ≔ chain db Databases.locale
      ⊕ "lc_collate" ≔ chain db Databases.locale))

unfoldable pub postgresql_user : Js → Result Js
postgresql_user db =
    ok (obj ("name" ≔ chain db Databases.user_name ⊕ "password" ≔ chain db Databases.user_password))

unfoldable pub pgbouncer_pool : Js → Result Js
pgbouncer_pool pool = ok (
    obj (
      "name" ≔ chain pool Pools.pool_name
      ⊕ "dbname" ≔ chain pool Pools.pool_name
      ⊕ "pool_parameters"
        ≔ obj
            ("pool_size" ≔ chain pool Pools.pool_size ⊕ "pool_mode" ≔ chain pool Pools.pool_mode)))

-- No pools are passed on if the pooler is disabled.
unfoldable pub pool_extra_vars : Props → Result Props
unfolding pgbouncer_pool
pool_extra_vars values =
    if truthy (field values Pools.is_connection_pooler_enabled)
    then (do
      pools ← map_items pgbouncer_pool (field values Pools.pools)
      ok ("pgbouncer_pools" ≔ pools))
    else ok end

abbrev pub extension_list : List Js → Props
extension_list [] = end
extension_list (x ∷ xs) = "postgresql_extensions" ≔ arr (from_list (x ∷ xs))

unfoldable pub parameter_extra_vars : Props → Result Props
parameter_extra_vars values =
    if truthy (field values PostgresParameters.postgres_parameters)
    then (do
      found ←
          convert_modal_parameters_to_array (field values PostgresParameters.postgres_parameters)
      ok ("local_postgresql_parameters" ≔ found))
    else ok end

unfoldable pub kernel_extra_vars : Props → Result Props
kernel_extra_vars values =
    if truthy (field values KernelParameters.kernel_parameters)
    then (do
      found ← convert_modal_parameters_to_array (field values KernelParameters.kernel_parameters)
      ok ("sysctl_set" ≔ bool true ⊕ "sysctl_conf" ≔ obj ("postgres_cluster" ≔ found)))
    else ok end

unfoldable pub sync_extra_vars : Props → Props
sync_extra_vars values = when (truthy (field values Additional.sync_standby_nodes)) (
    "synchronous_mode" ≔ bool true
    ⊕ "synchronous_node_count" ≔ field values Additional.sync_standby_nodes
    ⊕ when (truthy (field values Additional.is_sync_mode_strict))
        ("synchronous_mode_strict" ≔ bool true))

-- The properties of the expert mode that are always there.
unfoldable pub expert_head : Props → Js → Js → Props
expert_head values databases users =
    base_extra_vars values
    ⊕ "postgresql_databases" ≔ databases
    ⊕ "postgresql_users" ≔ users
    ⊕ "pgbouncer_install" ≔ bool (truthy (field values Pools.is_connection_pooler_enabled))
    ⊕ "netdata_install" ≔ bool (truthy (field values Additional.is_netdata_monitoring))

-- The object of the expert mode, from its parts.
abbrev pub expert_object : Props → Chosen → Js → Js → Props → Props → Props → Props → Props
expert_object values extensions databases users pools backups parameters kernel =
    expert_head values databases users
    ⊕ pools
    ⊕ extension_list extensions.db
    ⊕ extensions.extra_vars
    ⊕ backups
    ⊕ parameters
    ⊕ kernel
    ⊕ sync_extra_vars values

unfoldable pub expert_base_extra_vars : Props → Result Props
unfolding postgresql_database postgresql_user pool_extra_vars parameter_extra_vars kernel_extra_vars
    sync_extra_vars backup_extra_vars get_extensions expert_head
expert_base_extra_vars values = do
  extensions ← get_extensions values
  databases ← map_items postgresql_database (field values Databases.databases)
  users ← map_items postgresql_user (field values Databases.databases)
  pools ← pool_extra_vars values
  backups ← backup_extra_vars values
  parameters ← parameter_extra_vars values
  kernel ← kernel_extra_vars values
  ok (expert_object values extensions databases users pools backups parameters kernel)

unfoldable pub get_base_cluster_extra_vars : Bool → Props → Result Props
unfolding expert_base_extra_vars
get_base_cluster_extra_vars expert values =
    if expert then expert_base_extra_vars values else ok (base_extra_vars values)
