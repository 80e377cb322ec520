-- ===== src/Fields/Amount.antt =====
-- `INSTANCES_AMOUNT_BLOCK_VALUES`,
-- console/ui/src/entities/cluster/instances-amount-block/model/const.ts.
use postgresql_cluster.Common.{String}

abbrev pub instances_amount : String
instances_amount = "instancesAmount"

abbrev pub is_spot_instances : String
is_spot_instances = "isSpotInstances"
