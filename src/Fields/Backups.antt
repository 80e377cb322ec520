-- ===== src/Fields/Backups.antt =====
-- `BACKUPS_BLOCK_FIELD_NAMES`,
-- console/ui/src/entities/cluster/expert-mode/backups-block/model/const.ts.
use postgresql_cluster.Common.{String}

abbrev pub is_backups_enabled : String
is_backups_enabled = "isBackupsEnabled"

abbrev pub backup_method : String
backup_method = "backupMethod"

abbrev pub backup_start_time : String
backup_start_time = "backupStartTime"

abbrev pub backup_retention : String
backup_retention = "backupRetention"

abbrev pub config : String
config = "backupConfig"

abbrev pub access_key : String
access_key = "backupAccessKey"

abbrev pub secret_key : String
secret_key = "backupSecretKey"
