-- ===== src/Fields/PostgresParameters.antt =====
-- `POSTGRES_PARAMETERS_FIELD_NAMES`,
-- console/ui/src/entities/cluster/expert-mode/postgres-parameters-block/model/const.ts.
use postgresql_cluster.Common.{String}

abbrev pub postgres_parameters : String
postgres_parameters = "postgresParameters"
