-- ===== src/Validation/Expert.antt =====
-- The schemas of the blocks of the expert mode.
use postgresql_cluster.Common.{Bool, false, ◌&&◌, ◌||◌, if◌then◌else◌}
use postgresql_cluster.Js.{Js, str, Props, field, chain, is_str, truthy}
use postgresql_cluster.Schemas.{Yup}
use postgresql_cluster.Fields.Cluster
use postgresql_cluster.Fields.Databases
use postgresql_cluster.Fields.Pools
use postgresql_cluster.Fields.Backups
use postgresql_cluster.Fields.PostgresParameters
use postgresql_cluster.Fields.KernelParameters
use postgresql_cluster.Fields.Additional
use postgresql_cluster.Constants.Providers
use postgresql_cluster.Params.{config_validation}
use postgresql_cluster.Validation.Cloud.{is_local, on}

-- The test of `configValidationSchema`; `undefined` is tested as the text "undefined", which
-- does not have the format.
abbrev pub config_test : Js → Bool
config_test (str s) = config_validation s
config_test v = false

module _ (yup : Yup) where
  abbrev pub database_test : Js → Bool
  database_test database =
      yup.object database
      && yup.string (chain database Databases.database_name)
      && yup.string (chain database Databases.user_name)
      && yup.string (chain database Databases.user_password)
      && yup.string (chain database Databases.encoding)
      && yup.string (chain database Databases.locale)
      && yup.string (chain database Databases.block_id)

  unfoldable pub databases_block_schema : Props → Bool
  databases_block_schema values = yup.array database_test (field values Databases.databases)

  abbrev pub pool_test : Js → Bool
  pool_test pool =
      yup.object pool
      && yup.string (chain pool Pools.pool_name)
      && yup.number (chain pool Pools.pool_size)
      && yup.string (chain pool Pools.pool_mode)

  unfoldable pub connection_pools_block_schema : Props → Bool
  connection_pools_block_schema values =
      yup.boolean (field values Pools.is_connection_pooler_enabled)
      && yup.array pool_test (field values Pools.pools)

  -- `configValidationSchema(t)`, optional and required.
  abbrev pub config_schema : Js → Bool
  config_schema v = yup.string v && config_test v

  abbrev pub required_config_schema : Js → Bool
  required_config_schema v = yup.required_string v && config_test v

  abbrev pub backup_keys_schema : Props → Js → Bool
  backup_keys_schema values v =
      on yup
        ((is_str (chain (field values Cluster.provider) "code") Providers.digital_ocean
            || is_str (chain (field values Cluster.provider) "code") Providers.hetzner)
          && truthy (field values Backups.is_backups_enabled))
        yup.required_string v

  unfoldable pub backups_block_form_schema : Props → Bool
  backups_block_form_schema values =
      yup.boolean (field values Backups.is_backups_enabled)
      && (if is_local values && truthy (field values Backups.is_backups_enabled)
          then required_config_schema (field values Backups.config)
          else config_schema (field values Backups.config))
      && yup.string (field values Backups.backup_start_time)
      && yup.number (field values Backups.backup_retention)
      && backup_keys_schema values (field values Backups.access_key)
      && backup_keys_schema values (field values Backups.secret_key)

  unfoldable pub postgres_parameters_block_form_schema : Props → Bool
  postgres_parameters_block_form_schema values =
      config_schema (field values PostgresParameters.postgres_parameters)

  unfoldable pub kernel_parameters_block_form_schema : Props → Bool
  kernel_parameters_block_form_schema values =
      config_schema (field values KernelParameters.kernel_parameters)

  unfoldable pub additional_settings_block_form_schema : Props → Bool
  additional_settings_block_form_schema values =
      yup.number (field values Additional.sync_standby_nodes)
      && yup.boolean (field values Additional.is_sync_mode_strict)
      && yup.boolean (field values Additional.is_db_public_access)
      && yup.boolean (field values Additional.is_cloud_load_balancer)
      && yup.boolean (field values Additional.is_netdata_monitoring)
