-- ===== src/Fields/Storage.antt =====
-- `STORAGE_BLOCK_FIELDS`,
-- console/ui/src/entities/cluster/storage-block/model/const.ts.
use postgresql_cluster.Common.{String}

abbrev pub storage_amount : String
storage_amount = "storageAmount"

abbrev pub file_system_type : String
file_system_type = "fileSystemType"

abbrev pub volume_type : String
volume_type = "volumeType"
