-- ===== src/Fields/Pools.antt =====
-- `CONNECTION_POOLS_BLOCK_FIELD_NAMES`,
-- console/ui/src/entities/cluster/expert-mode/connection-pools-block/model/const.ts.
use postgresql_cluster.Common.{String}

abbrev pub is_connection_pooler_enabled : String
is_connection_pooler_enabled = "isConnectionPoolerEnabled"

abbrev pub pools : String
pools = "pools"

abbrev pub pool_name : String
pool_name = "poolName"

abbrev pub pool_size : String
pool_size = "poolSize"

abbrev pub pool_mode : String
pool_mode = "poolMode"
