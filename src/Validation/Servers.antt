-- ===== src/Validation/Servers.antt =====
-- `DatabaseServersBlockSchema`, `LoadBalancerBlockSchema` and `DcsBlockSchema`.
use postgresql_cluster.Common.{Bool, true, false, not, ◌&&◌, ◌||◌, if◌then◌else◌}
use postgresql_cluster.Js.{Js, nan, Props, field, chain, is_str, truthy, to_number}
use postgresql_cluster.Schemas.{Yup}
use postgresql_cluster.Fields.DatabaseServers
use postgresql_cluster.Fields.LoadBalancers
use postgresql_cluster.Fields.Dcs
use postgresql_cluster.Constants.DcsTypes
use postgresql_cluster.Validation.Cloud.{is_local, on}

abbrev is_nan : Js → Bool
is_nan nan = true
is_nan v = false

module _ (yup : Yup) where
  -- A required text that is an address of version 4.
  abbrev pub address_test : Js → Bool
  address_test v = yup.required_string v && yup.is_v4 v

  abbrev pub database_server_test : Js → Bool
  database_server_test server =
      yup.object server
      && yup.required_string (chain server DatabaseServers.database_hostname)
      && address_test (chain server DatabaseServers.database_ip_address)
      && yup.string (chain server DatabaseServers.database_location)

  unfoldable pub database_servers_block_schema : Props → Bool
  database_servers_block_schema values =
      on yup (is_local values) (yup.array database_server_test)
        (field values DatabaseServers.database_servers)

  abbrev pub load_balancer_test : Js → Bool
  load_balancer_test server =
      yup.object server
      && yup.required_string (chain server LoadBalancers.load_balancer_databases_hostname)
      && address_test (chain server LoadBalancers.load_balancer_databases_ip_address)

  abbrev pub needs_balancers : Bool → Props → Bool
  needs_balancers expert values =
      expert
      && is_local values
      && truthy (field values LoadBalancers.is_haproxy_enabled)
      && not (truthy (field values LoadBalancers.is_deploy_to_database_servers))

  unfoldable pub load_balancer_block_schema : Bool → Props → Bool
  load_balancer_block_schema expert values =
      yup.boolean (field values LoadBalancers.is_haproxy_enabled)
      && yup.boolean (field values LoadBalancers.is_deploy_to_database_servers)
      && on yup (needs_balancers expert values) (yup.array load_balancer_test)
          (field values LoadBalancers.load_balancer_databases)

  abbrev pub port_test : Props → Js → Bool
  port_test values v =
      if not (truthy (field values Dcs.is_deploy_new_cluster))
        && is_str (field values Dcs.type) DcsTypes.etcd
      then yup.required_string v && not (is_nan (to_number v))
      else yup.string v

  abbrev pub hostname_test : Props → Js → Bool
  hostname_test values v =
      if truthy (field values Dcs.is_deploy_new_cluster)
        && not (truthy (field values Dcs.is_deploy_to_db_servers))
      then yup.required_string v
      else yup.string v

  abbrev pub dcs_server_test : Props → Js → Bool
  dcs_server_test values server =
      yup.object server
      && address_test (chain server Dcs.dcs_database_ip_address)
      && port_test values (chain server Dcs.dcs_database_port)
      && hostname_test values (chain server Dcs.dcs_database_hostname)

  abbrev pub needs_dcs_servers : Bool → Props → Bool
  needs_dcs_servers expert values =
      expert
      && is_local values
      && (not (truthy (field values Dcs.is_deploy_new_cluster))
          || not (truthy (field values Dcs.is_deploy_to_db_servers)))

  unfoldable pub dcs_block_schema : Bool → Props → Bool
  unfolding to_number
  dcs_block_schema expert values =
      yup.string (field values Dcs.type)
      && yup.boolean (field values Dcs.is_deploy_new_cluster)
      && yup.boolean (field values Dcs.is_deploy_to_db_servers)
      && on yup (needs_dcs_servers expert values) (yup.array (dcs_server_test values))
          (field values Dcs.dcs_databases)
