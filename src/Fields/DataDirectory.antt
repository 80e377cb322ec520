-- ===== src/Fields/DataDirectory.antt =====
-- `DATA_DIRECTORY_FIELD_NAMES`,
-- console/ui/src/entities/cluster/expert-mode/data-directory-block/model/const.ts.
use postgresql_cluster.Common.{String}

abbrev pub data_directory : String
data_directory = "dataDirectory"
