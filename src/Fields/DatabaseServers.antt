-- ===== src/Fields/DatabaseServers.antt =====
-- `DATABASE_SERVERS_FIELD_NAMES`,
-- console/ui/src/entities/cluster/database-servers-block/model/const.ts.
use postgresql_cluster.Common.{String}

abbrev pub is_cluster_exists : String
is_cluster_exists = "databaseServerExistingCluster"

abbrev pub database_servers : String
database_servers = "databaseServers"

abbrev pub database_hostname : String
database_hostname = "databaseServerHostname"

abbrev pub database_ip_address : String
database_ip_address = "databaseServerIpAddress"

abbrev pub database_location : String
database_location = "databaseServerLocation"

abbrev pub is_postgresql_exists : String
is_postgresql_exists = "databaseServerIsPostgreSQLExist"
