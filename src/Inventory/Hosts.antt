-- ===== src/Inventory/Hosts.antt =====
-- `configureHosts`: the hosts of a group of the inventory, from a field array of servers.
use postgresql_cluster.Common.{
  String, Bool, true, false, not, ◌==◌, Option, none, some, List, [], ◌∷◌, if◌then◌else◌,
}
use postgresql_cluster.Js.{
  Js, str, obj, Props, end, field, member, ◌≔◌, ◌⊕◌, when, Result, ok, ◌>>=◌, array_items,
  to_string,
}
use postgresql_cluster.Fields.Dcs
use postgresql_cluster.Fields.DatabaseServers

-- The names of the fields that hold the servers, and those of a server.
pub record ServerKeys : Type 0 where
  pub servers : String
  pub ip_address : String
  pub hostname : Option String

abbrev pub db_servers_keys : ServerKeys
db_servers_keys = record {
  servers = DatabaseServers.database_servers;
  ip_address = DatabaseServers.database_ip_address;
  hostname = none;
}

abbrev pub dcs_hosts_keys : ServerKeys
dcs_hosts_keys = record {
  servers = Dcs.dcs_databases;
  ip_address = Dcs.dcs_database_ip_address;
  hostname = some Dcs.dcs_database_hostname;
}

abbrev pub role_props : Option String → Props
role_props none = end
role_props (some role) = when (not (role == "")) ("consul_node_role" ≔ str role)

unfoldable pub hostname_props : Bool → Option String → Js → Result Props
hostname_props false key server = ok end
hostname_props true none server = ok end
hostname_props true (some key) server = do hostname ← member server key; ok ("hostname" ≔ hostname)

-- The host of one server, under its address.
unfoldable pub host_entry : ServerKeys → Option String → Bool → Js → Result Props
unfolding hostname_props to_string
host_entry keys role should_add_hostname server = do
  ip ← member server keys.ip_address
  named ← hostname_props should_add_hostname keys.hostname server
  ok (to_string ip ≔ obj ("ansible_host" ≔ ip ⊕ named ⊕ role_props role))

-- The `reduce`: a later host replaces one of the same address.
unfoldable pub collect_hosts : (Js → Result Props) → Props → List Js → Result Props
collect_hosts entry acc [] = ok acc
collect_hosts entry acc (server ∷ servers) = do
  host ← entry server
  collect_hosts entry (acc ⊕ host) servers

abbrev pub server_keys : Bool → ServerKeys
server_keys is_db_servers = if is_db_servers then db_servers_keys else dcs_hosts_keys

unfoldable pub configure_hosts : Props → Option String → Bool → Bool → Result Props
unfolding host_entry collect_hosts
configure_hosts values role should_add_hostname is_db_servers = do
  let keys = server_keys is_db_servers
  servers ← array_items (field values keys.servers)
  collect_hosts (host_entry keys role should_add_hostname) end servers
