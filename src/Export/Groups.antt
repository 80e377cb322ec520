-- ===== src/Export/Groups.antt =====
-- The groups of hosts, from the servers of the cluster.
use postgresql_cluster.Common.{
  String, Bool, true, false, not, ◌&&◌, ◌||◌, List, [], ◌∷◌, if◌then◌else◌,
}
use postgresql_cluster.Js.{
  Js, null, bool, obj, Props, end, chain, truthy, is_str, member, put, ◌≔◌, ◌⊕◌, when, Result, ok,
  ◌>>=◌, array_items, to_string,
}

abbrev is_null : Js → Bool
is_null null = true
is_null v = false

abbrev pub address : Js → String
address server = to_string (chain server "ip")

-- The test of the filter; reading a property of a missing server throws.
unfoldable pub is_valid_server : Js → Result Bool
is_valid_server server = do
  ip ← member server "ip"
  name ← member server "name"
  ok (
      truthy ip
      && truthy name
      && not (is_str ip "undefined")
      && not (is_str name "undefined")
      && not (is_null ip)
      && not (is_null name)
      && not (is_str ip "")
      && not (is_str name ""))

unfoldable pub valid_of : List Js → Result (List Js)
unfolding is_valid_server
valid_of [] = ok []
valid_of (server ∷ servers) = do
  valid ← is_valid_server server
  rest ← valid_of servers
  ok (if valid then server ∷ rest else rest)

-- `(response.servers || []).filter(...)`
unfoldable pub valid_servers : Js → Result (List Js)
unfolding valid_of
valid_servers servers =
    if truthy servers then (do found ← array_items servers; valid_of found) else ok []

pub record HostGroups : Type 0 where
  pub master : Props
  pub replica : Props
  pub etcd : Props
  pub balancers : Props

abbrev pub no_hosts : HostGroups
no_hosts = record { master = end; replica = end; etcd = end; balancers = end }

abbrev pub is_primary : Js → Bool
is_primary server =
    is_str (chain server "role") "leader"
    || is_str (chain server "role") "master"
    || is_str (chain server "role") "primary"

abbrev pub host_data : Js → Js
host_data server = obj (
    "hostname" ≔ chain server "name"
    ⊕ "ansible_host" ≔ chain server "ip"
    ⊕ "postgresql_exists" ≔ bool true
    ⊕ when (truthy (chain server "location")) ("server_location" ≔ chain server "location"))

abbrev pub host_address : Js → Js
host_address server = obj ("ansible_host" ≔ chain server "ip")

abbrev pub put_if : Bool → Props → String → Js → Props
put_if b ps k v = if b then put ps k v else ps

-- One round of the `forEach`.
unfoldable pub add_server : Bool → HostGroups → Js → HostGroups
unfolding to_string
add_server balanced g server = record {
  master = put_if (is_primary server) g.master (address server) (host_data server);
  replica = put_if (not (is_primary server)) g.replica (address server) (host_data server);
  etcd = put g.etcd (address server) (host_address server);
  balancers = put_if balanced g.balancers (address server) (host_address server);
}

unfoldable pub add_servers : Bool → HostGroups → List Js → HostGroups
unfolding add_server
add_servers balanced g [] = g
add_servers balanced g (server ∷ servers) =
    add_servers balanced (add_server balanced g server) servers

-- The `forEach`, which reads `vars.with_haproxy_load_balancing` if there is a server.
unfoldable pub host_groups : Js → List Js → Result HostGroups
unfolding add_servers
host_groups vars [] = ok no_hosts
host_groups vars (server ∷ servers) = do
  balanced ← member vars "with_haproxy_load_balancing"
  ok (add_servers (truthy balanced) no_hosts (server ∷ servers))
