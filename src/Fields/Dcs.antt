-- ===== src/Fields/Dcs.antt =====
-- `DCS_BLOCK_FIELD_NAMES`,
-- console/ui/src/entities/cluster/expert-mode/dcs-block/model/const.ts.
use postgresql_cluster.Common.{String}

abbrev pub type : String
type = "type"

abbrev pub is_deploy_new_cluster : String
is_deploy_new_cluster = "isDeployNewCluster"

abbrev pub is_deploy_to_db_servers : String
is_deploy_to_db_servers = "isDeployToDbServers"

abbrev pub dcs_databases : String
dcs_databases = "dcsDatabases"

abbrev pub dcs_database_hostname : String
dcs_database_hostname = "dcsDatabaseHostname"

abbrev pub dcs_database_ip_address : String
dcs_database_ip_address = "dcsDatabaseIpAddress"

abbrev pub dcs_database_port : String
dcs_database_port = "dcsDatabasePort"
