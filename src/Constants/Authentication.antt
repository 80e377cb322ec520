-- ===== src/Constants/Authentication.antt =====
-- `AUTHENTICATION_METHODS`,
-- console/ui/src/shared/model/constants.ts.
use postgresql_cluster.Common.{String}

abbrev pub ssh : String
ssh = "ssh_key"

abbrev pub password : String
password = "password"
