-- ===== src/Constants/CreationTypes.antt =====
-- `CLUSTER_CREATION_TYPES`,
-- console/ui/src/widgets/cluster-form/model/constants.ts.
use postgresql_cluster.Common.{String}

abbrev pub form : String
form = "form"

abbrev pub yaml : String
yaml = "yaml"
