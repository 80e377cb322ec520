-- ===== src/Fields/Instances.antt =====
-- `INSTANCES_BLOCK_FIELD_NAMES`,
-- console/ui/src/entities/cluster/instances-block/model/const.ts.
use postgresql_cluster.Common.{String}

abbrev pub instance_type : String
instance_type = "instanceType"

abbrev pub server_type : String
server_type = "serverType"
