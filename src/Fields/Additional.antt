-- ===== src/Fields/Additional.antt =====
-- `ADDITIONAL_SETTINGS_BLOCK_FIELD_NAMES`,
-- console/ui/src/entities/cluster/expert-mode/additional-settings-block/model/const.ts.
use postgresql_cluster.Common.{String}

abbrev pub sync_standby_nodes : String
sync_standby_nodes = "synchronousStandbyModes"

abbrev pub is_sync_mode_strict : String
is_sync_mode_strict = "isSynchronousModeStrict"

abbrev pub is_db_public_access : String
is_db_public_access = "isDbPublicAccess"

abbrev pub is_cloud_load_balancer : String
is_cloud_load_balancer = "isCloudLoadBalancer"

abbrev pub is_netdata_monitoring : String
is_netdata_monitoring = "isNetdataMonitoring"
