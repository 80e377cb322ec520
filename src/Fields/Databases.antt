-- ===== src/Fields/Databases.antt =====
-- `DATABASES_BLOCK_FIELD_NAMES`,
-- console/ui/src/entities/cluster/expert-mode/databases-block/model/const.ts.
use postgresql_cluster.Common.{String}

abbrev pub databases : String
databases = "databasesBlock"

abbrev pub names : String
names = "databasesBlockNames"

abbrev pub database_name : String
database_name = "databasesBlockDatabaseName"

abbrev pub user_name : String
user_name = "databasesBlockUsername"

abbrev pub user_password : String
user_password = "databasesBlockUserPassword"

abbrev pub encoding : String
encoding = "databasesBlockEncoding"

abbrev pub locale : String
locale = "databasesBlockLocale"

abbrev pub block_id : String
block_id = "databasesBlockId"
