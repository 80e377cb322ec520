-- ===== src/Fields/Network.antt =====
-- `NETWORK_BLOCK_FIELD_NAMES`,
-- console/ui/src/entities/cluster/expert-mode/network-block/model/const.ts.
use postgresql_cluster.Common.{String}

abbrev pub server_network : String
server_network = "serverNetwork"
