-- ===== src/Inventory/Groups.antt =====
-- `constructDcsEnvs` and `constructBalancersEnvs`.
use postgresql_cluster.Common.{String, Bool, true, false, not, ◌&&◌, none, some, if◌then◌else◌}
use postgresql_cluster.Js.{
  Js, undefined, obj, Props, end, truthy, is_str, field, member, ◌≔◌, ◌⊕◌, Result, ok, ◌>>=◌,
  array_items, to_string,
}
use postgresql_cluster.Fields.Dcs
use postgresql_cluster.Fields.LoadBalancers
use postgresql_cluster.Fields.DatabaseServers
use postgresql_cluster.Constants.DcsTypes
use postgresql_cluster.Inventory.Hosts.{configure_hosts, collect_hosts}

-- `{ hosts: ... }`
abbrev pub group : Props → Js
group hosts = obj ("hosts" ≔ obj hosts)

-- The two groups of a DCS.
abbrev pub dcs_groups : Props → Props → Props
dcs_groups etcd consul = "etcd_cluster" ≔ group etcd ⊕ "consul_instances" ≔ group consul

-- A parameter whose default value is `true`.
abbrev pub default_true : Js → Bool
default_true undefined = true
default_true v = truthy v

unfoldable pub new_etcd : Props → Result Props
unfolding configure_hosts
new_etcd values = do
  let on_db_servers = field values Dcs.is_deploy_to_db_servers
  hosts ← configure_hosts values none (not (truthy on_db_servers)) (default_true on_db_servers)
  ok (dcs_groups hosts end)

unfoldable pub new_consul : Props → Result Props
unfolding configure_hosts
new_consul values =
    if truthy (field values Dcs.is_deploy_to_db_servers)
    then (do
      servers ← configure_hosts values (some "server") false true
      ok (dcs_groups end servers))
    else (do
      clients ← configure_hosts values (some "client") false true
      servers ← configure_hosts values (some "server") true false
      ok (dcs_groups end (clients ⊕ servers)))

unfoldable pub new_dcs : Props → Result Props
unfolding new_etcd new_consul
new_dcs values =
    if is_str (field values Dcs.type) DcsTypes.etcd
    then new_etcd values
    else if is_str (field values Dcs.type) DcsTypes.consul
    then new_consul values
    else ok (dcs_groups end end)

-- Where the function returns `undefined`, nothing is spread.
unfoldable pub construct_dcs_envs : Bool → Props → Result Props
unfolding new_dcs configure_hosts
construct_dcs_envs expert values =
    if truthy (field values Dcs.is_deploy_new_cluster)
    then (if expert
        then new_dcs values
        else (do hosts ← configure_hosts values none false true; ok (dcs_groups hosts end)))
    else if expert && is_str (field values Dcs.type) DcsTypes.consul
    then (do
      clients ← configure_hosts values (some "client") false true
      ok ("consul_instances" ≔ group clients))
    else ok end

-- A balancer, under the address that the server has in the field `key`.
unfoldable pub balancer_entry : String → Js → Result Props
unfolding to_string
balancer_entry key server = do ip ← member server key; ok (to_string ip ≔ obj ("ansible_host" ≔ ip))

unfoldable pub balancers_from : Props → String → String → Result Props
unfolding balancer_entry collect_hosts
balancers_from values servers_key ip_key = do
  servers ← array_items (field values servers_key)
  collect_hosts (balancer_entry ip_key) end servers

unfoldable pub balancer_hosts : Bool → Props → Result Props
unfolding balancers_from
balancer_hosts expert values =
    if truthy (field values LoadBalancers.is_haproxy_enabled)
    then (if expert && not (truthy (field values LoadBalancers.is_deploy_to_database_servers))
        then balancers_from values LoadBalancers.load_balancer_databases
            LoadBalancers.load_balancer_databases_ip_address
        else balancers_from values DatabaseServers.database_servers
            DatabaseServers.database_ip_address)
    else ok end

unfoldable pub construct_balancers_envs : Bool → Props → Result Props
unfolding balancer_hosts
construct_balancers_envs expert values = do
  hosts ← balancer_hosts expert values
  ok ("balancers" ≔ group hosts)
