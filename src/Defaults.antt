-- ===== src/Defaults.antt =====
-- The default values of the cluster form, of
-- console/ui/src/widgets/cluster-form/model/constants.ts; `unique_id` is what lodash gave.
use postgresql_cluster.Common.{String, Bool, true, false, ◌≡◌, refl}
use postgresql_cluster.Js.{Js, bool, num, str, arr, obj, nil, cons, Props, end, ◌≔◌, ◌⊕◌, when}
use postgresql_cluster.Fields.Cluster
use postgresql_cluster.Fields.Amount
use postgresql_cluster.Fields.Storage
use postgresql_cluster.Fields.Instances
use postgresql_cluster.Fields.Network
use postgresql_cluster.Fields.Additional
use postgresql_cluster.Fields.Dcs
use postgresql_cluster.Fields.LoadBalancers
use postgresql_cluster.Fields.DataDirectory
use postgresql_cluster.Fields.DatabaseServers
use postgresql_cluster.Fields.Backups
use postgresql_cluster.Fields.PostgresParameters
use postgresql_cluster.Fields.KernelParameters
use postgresql_cluster.Fields.Databases
use postgresql_cluster.Fields.Pools
use postgresql_cluster.Fields.Extensions
use postgresql_cluster.Constants.Authentication
use postgresql_cluster.Constants.DcsTypes
use postgresql_cluster.Constants.BackupMethods
use postgresql_cluster.Constants.CreationTypes
mod Laws
mod Tests

abbrev pub dcs_databases_default_values : Props
dcs_databases_default_values =
    Dcs.dcs_database_hostname ≔ str ""
    ⊕ Dcs.dcs_database_ip_address ≔ str ""
    ⊕ Dcs.dcs_database_port ≔ str "2379"

abbrev pub load_balancers_databases_default_values : Props
load_balancers_databases_default_values =
    LoadBalancers.load_balancer_databases_hostname ≔ str ""
    ⊕ LoadBalancers.load_balancer_databases_ip_address ≔ str ""

-- `Array(3).fill(0).map(() => v)`
abbrev three : Props → Js
three ps = arr (cons (obj ps) (cons (obj ps) (cons (obj ps) nil)))

unfoldable pub cloud_cluster_default_values : Bool → Props
cloud_cluster_default_values expert =
    Amount.instances_amount ≔ num 3
    ⊕ Instances.instance_type ≔ str "small"
    ⊕ Storage.storage_amount ≔ num 100
    ⊕ when expert (
        Instances.server_type ≔ str ""
        ⊕ Network.server_network ≔ str ""
        ⊕ Amount.is_spot_instances ≔ bool false
        ⊕ Storage.file_system_type ≔ str "ext4"
        ⊕ Additional.is_cloud_load_balancer ≔ bool true)

unfoldable pub local_cluster_default_values : Bool → Props
local_cluster_default_values expert =
    Cluster.authentication_method ≔ str Authentication.ssh
    ⊕ when expert (
        Dcs.type ≔ str DcsTypes.etcd
        ⊕ Dcs.is_deploy_new_cluster ≔ bool true
        ⊕ Dcs.is_deploy_to_db_servers ≔ bool true
        ⊕ Dcs.dcs_databases ≔ three dcs_databases_default_values
        ⊕ LoadBalancers.is_deploy_to_database_servers ≔ bool false
        ⊕ LoadBalancers.load_balancer_databases
          ≔ arr (cons (obj load_balancers_databases_default_values) nil)
        ⊕ DataDirectory.data_directory ≔ str "/pgdata/18/main")

abbrev pub database_server_default_values : Props
database_server_default_values =
    DatabaseServers.database_hostname ≔ str ""
    ⊕ DatabaseServers.database_ip_address ≔ str ""
    ⊕ DatabaseServers.database_location ≔ str ""

abbrev pub database_default_values : String → Props
database_default_values unique_id =
    Databases.database_name ≔ str "db1"
    ⊕ Databases.user_name ≔ str "db1_user"
    ⊕ Databases.user_password ≔ str ""
    ⊕ Databases.encoding ≔ str "UTF8"
    ⊕ Databases.locale ≔ str "en_US.UTF-8"
    ⊕ Databases.block_id ≔ str unique_id

abbrev pub pool_default_values : Props
pool_default_values =
    Pools.pool_name ≔ str "db1" ⊕ Pools.pool_size ≔ num 20 ⊕ Pools.pool_mode ≔ str "transaction"

unfoldable pub expert_default_values : String → Props
expert_default_values unique_id =
    Backups.is_backups_enabled ≔ bool true
    ⊕ Backups.backup_method ≔ str BackupMethods.pg_back_rest
    ⊕ Backups.backup_retention ≔ num 30
    ⊕ Backups.backup_start_time ≔ num 1
    ⊕ Backups.config ≔ str ""
    ⊕ Backups.access_key ≔ str ""
    ⊕ Backups.secret_key ≔ str ""
    ⊕ PostgresParameters.postgres_parameters ≔ str ""
    ⊕ KernelParameters.kernel_parameters ≔ str ""
    ⊕ Databases.databases ≔ arr (cons (obj (database_default_values unique_id)) nil)
    ⊕ Pools.is_connection_pooler_enabled ≔ bool true
    ⊕ Pools.pools ≔ arr (cons (obj pool_default_values) nil)
    ⊕ Extensions.extensions ≔ obj end
    ⊕ Additional.sync_standby_nodes ≔ num 0
    ⊕ Additional.is_netdata_monitoring ≔ bool true

unfoldable pub cluster_form_default_values : Bool → String → Props
unfolding cloud_cluster_default_values local_cluster_default_values expert_default_values
cluster_form_default_values expert unique_id =
    cloud_cluster_default_values expert
    ⊕ local_cluster_default_values expert
    ⊕ Cluster.description ≔ str ""
    ⊕ Cluster.creation_type ≔ str CreationTypes.form
    ⊕ Cluster.is_use_defined_secret ≔ bool false
    ⊕ Cluster.secret_id ≔ str ""
    ⊕ DatabaseServers.database_servers ≔ three database_server_default_values
    ⊕ when expert (expert_default_values unique_id)
