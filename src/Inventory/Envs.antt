-- ===== src/Inventory/Envs.antt =====
-- `getLocalMachineEnvs`.
use postgresql_cluster.Common.{Bool, false, not, ◌&&◌, List, [], ◌∷◌, if◌then◌else◌}
use postgresql_cluster.Js.{
  Js, bool, obj, Props, end, truthy, is_str, nullish, field, chain, member, ◌≔◌, ◌⊕◌, when, Result,
  ok, ◌>>=◌, array_items, first_item, to_string,
}
use postgresql_cluster.Fields.Cluster
use postgresql_cluster.Fields.DatabaseServers
use postgresql_cluster.Fields.Secret
use postgresql_cluster.Constants.Authentication
use postgresql_cluster.Inventory.Hosts.{collect_hosts}
use postgresql_cluster.Inventory.Groups.{construct_dcs_envs, construct_balancers_envs}

-- `postgresql_exists` of a server.
unfoldable pub postgresql_exists : Bool → Props → Js → Js
postgresql_exists expert values server =
    if expert
    then chain server DatabaseServers.is_postgresql_exists
    else nullish (field values DatabaseServers.is_cluster_exists) (bool false)

-- A database server, under its address.
unfoldable pub database_entry : Bool → Props → Js → Result Props
unfolding postgresql_exists to_string
database_entry expert values server = do
  ip ← member server DatabaseServers.database_ip_address
  ok (
      to_string ip
      ≔ obj (
          "hostname" ≔ chain server DatabaseServers.database_hostname
          ⊕ "ansible_host" ≔ ip
          ⊕ "server_location" ≔ chain server DatabaseServers.database_location
          ⊕ "postgresql_exists" ≔ postgresql_exists expert values server))

-- The group of all servers but the first, where there are such.
unfoldable pub replica_group : Bool → Props → List Js → Result Props
unfolding database_entry collect_hosts
replica_group expert values [] = ok end
replica_group expert values (server ∷ servers) = do
  hosts ← collect_hosts (database_entry expert values) end (server ∷ servers)
  ok ("replica" ≔ obj ("hosts" ≔ obj hosts))

abbrev pub rest_of : List Js → List Js
rest_of [] = []
rest_of (x ∷ xs) = xs

unfoldable pub connection_vars : Props → Props
connection_vars values =
    "ansible_user" ≔ field values Secret.username
    ⊕ when (is_str (field values Cluster.authentication_method) Authentication.password) (
        "ansible_ssh_pass" ≔ field values Secret.username
        ⊕ "ansible_sudo_pass" ≔ field values Secret.password)

unfoldable pub inventory_children : Bool → Props → Result Props
unfolding construct_balancers_envs construct_dcs_envs database_entry replica_group
inventory_children expert values = do
  balancers ← construct_balancers_envs expert values
  dcs ← construct_dcs_envs expert values
  first ← first_item (field values DatabaseServers.database_servers)
  master ← database_entry expert values first
  servers ← array_items (field values DatabaseServers.database_servers)
  replica ← replica_group expert values (rest_of servers)
  ok (
      balancers
      ⊕ dcs
      ⊕ "master" ≔ obj ("hosts" ≔ obj master)
      ⊕ replica
      ⊕ "postgres_cluster" ≔ obj ("children" ≔ obj ("master" ≔ obj end ⊕ "replica" ≔ obj end)))

-- Whether the private key of the form is the one to connect with: no secret is used.
unfoldable pub uses_typed_key : Props → Js → Bool
uses_typed_key values secret_id =
    is_str (field values Cluster.authentication_method) Authentication.ssh
    && not (truthy (field values Cluster.is_use_defined_secret))
    && not (truthy secret_id)

unfoldable pub get_local_machine_envs : Bool → Props → Js → Result Props
unfolding connection_vars inventory_children uses_typed_key
get_local_machine_envs expert values secret_id = do
  children ← inventory_children expert values
  ok (
      when (uses_typed_key values secret_id)
        ("SSH_PRIVATE_KEY_CONTENT" ≔ field values Secret.ssh_private_key)
      ⊕ "ANSIBLE_INVENTORY_JSON"
        ≔ obj ("all" ≔ obj ("vars" ≔ obj (connection_vars values) ⊕ "children" ≔ obj children)))
