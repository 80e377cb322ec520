-- ===== src/Constants/BackupMethods.antt =====
-- `BACKUP_METHODS`,
-- console/ui/src/entities/cluster/expert-mode/backups-block/model/const.ts.
use postgresql_cluster.Common.{String}

abbrev pub pg_back_rest : String
pg_back_rest = "pgbackrest_install"

abbrev pub wal_g : String
wal_g = "wal_g_install"
