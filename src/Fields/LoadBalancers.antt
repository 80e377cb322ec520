-- ===== src/Fields/LoadBalancers.antt =====
-- `LOAD_BALANCERS_FIELD_NAMES`,
-- console/ui/src/entities/cluster/load-balancers-block/model/const.ts.
use postgresql_cluster.Common.{String}

abbrev pub is_haproxy_enabled : String
is_haproxy_enabled = "isHaproxyEnabled"

abbrev pub is_deploy_to_database_servers : String
is_deploy_to_database_servers = "isDeployToDatabaseServers"

abbrev pub load_balancer_databases : String
load_balancer_databases = "loadBalancerDatabases"

abbrev pub load_balancer_databases_hostname : String
load_balancer_databases_hostname = "loadBalancerDatabasesHostname"

abbrev pub load_balancer_databases_ip_address : String
load_balancer_databases_ip_address = "loadBalancerDatabasesIpAddress"
