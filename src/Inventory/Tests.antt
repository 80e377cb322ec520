-- ===== src/Inventory/Tests.antt =====
-- Runs of the inventory.
use postgresql_cluster.Common.{true, false, ◌≡◌, refl, none, some}
use postgresql_cluster.Js.{
  Js, undefined, str, obj, arr, items, Props, end, lookup, size, ◌≔◌, ok, cons, nil,
}
use postgresql_cluster.Samples.{result_or, local_values, server, three_servers}
use postgresql_cluster.Inventory.Hosts.{server_keys, configure_hosts}
use postgresql_cluster.Inventory.Envs.{inventory_children}
use postgresql_cluster.Inventory.HostLaws.{host_of, configure_hosts-lookup}
use postgresql_cluster.Inventory.ServerLaws.{address, database_host, IsReplicaGroup}
use postgresql_cluster.Inventory.ChildrenLaws.{inventory_children-servers}

sample_hosts : Props
unfolding configure_hosts
sample_hosts = result_or end (configure_hosts local_values none false true)

configure_hosts-lookup_example :
    lookup sample_hosts "10.0.0.2"
    ≡ some (host_of (server_keys true) none false (server "b" "10.0.0.2"))
unfolding sample_hosts postgresql_cluster.Js.field
configure_hosts-lookup_example =
    configure_hosts-lookup local_values none false true sample_hosts three_servers refl refl
      "10.0.0.2"

sample_children : Props
unfolding inventory_children
sample_children = result_or end (inventory_children false local_values)

inventory_children-servers_example :
    (lookup sample_children "master"
      ≡ some (
          obj (
            "hosts"
            ≔ obj (
                address (server "a" "10.0.0.1")
                ≔ database_host false local_values (server "a" "10.0.0.1")))))
    × IsReplicaGroup false local_values
        (items (cons (server "b" "10.0.0.2") (cons (server "c" "10.0.0.3") nil)))
        (lookup sample_children "replica")
unfolding sample_children postgresql_cluster.Js.field
inventory_children-servers_example =
    inventory_children-servers false local_values sample_children (server "a" "10.0.0.1")
      (cons (server "b" "10.0.0.2") (cons (server "c" "10.0.0.3") nil)) refl refl
