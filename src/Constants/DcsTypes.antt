-- ===== src/Constants/DcsTypes.antt =====
-- `DCS_TYPES`,
-- console/ui/src/entities/cluster/expert-mode/dcs-block/model/const.ts.
use postgresql_cluster.Common.{String}

abbrev pub etcd : String
etcd = "etcd"

abbrev pub consul : String
consul = "consul"
