-- ===== src/Fields/Cluster.antt =====
-- `CLUSTER_CLOUD_PROVIDER_FIELD_NAMES`,
-- `CLUSTER_LOCAL_MACHINE_FIELD_NAMES`,
-- `CLUSTER_FORM_FIELD_NAMES`,
-- console/ui/src/widgets/cluster-form/model/constants.ts.
use postgresql_cluster.Common.{String}

abbrev pub region : String
region = "region"

abbrev pub region_config : String
region_config = "regionConfig"

abbrev pub instance_type : String
instance_type = "instanceType"

abbrev pub instance_config : String
instance_config = "instanceConfig"

abbrev pub ssh_public_key : String
ssh_public_key = "sshPublicKey"

abbrev pub existing_cluster : String
existing_cluster = "existingCluster"

abbrev pub authentication_method : String
authentication_method = "authenticationMethod"

abbrev pub secret_key_name : String
secret_key_name = "secretKeyName"

abbrev pub authentication_is_save_to_console : String
authentication_is_save_to_console = "authenticationSaveToConsole"

abbrev pub cluster_vip_address : String
cluster_vip_address = "clusterVIPAddress"

abbrev pub is_use_defined_secret : String
is_use_defined_secret = "isUseDefinedSecret"

abbrev pub provider : String
provider = "provider"

abbrev pub environment_id : String
environment_id = "environment"

abbrev pub cluster_name : String
cluster_name = "clusterName"

abbrev pub description : String
description = "description"

abbrev pub postgres_version : String
postgres_version = "postgresVersion"

abbrev pub secret_id : String
secret_id = "secretId"

abbrev pub creation_type : String
creation_type = "creationType"
