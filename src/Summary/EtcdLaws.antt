-- ===== src/Summary/EtcdLaws.antt =====
-- What the summary's word on high availability says of the etcd cluster that the inventory asks
-- for.
use postgresql_cluster.Common.{
  refl, sym, ◌∙◌, arith, Bool, true, false, not, ◌&&◌, ◌||◌, ◌≡◌, String, List, ◌≤◌, [], length,
  arith, some, none, ap,
}
use postgresql_cluster.Js.{
  Js, Props, field, truthy, arr, items, lookup, Items, is_str, ◌⊕◌, ok, bool, size, ◌>>=◌, end,
  bind-eq-ok, ok-injective,
}
use postgresql_cluster.Fields.Dcs
use postgresql_cluster.Constants.DcsTypes
use postgresql_cluster.Inventory.{
  server_keys, construct_dcs_envs, configure_hosts, dcs_groups, group, new_dcs, new_etcd,
}
use postgresql_cluster.Inventory.HostLaws.{text_of, HasDistinct, configure_hosts-size}
use postgresql_cluster.Summary.{has_three, is_high_availability}

-- Whether a new etcd cluster runs on the database servers.
abbrev pub on_database_servers : Bool → Props → Bool
on_database_servers expert values = not expert || truthy (field values Dcs.is_deploy_to_db_servers)

abbrev pub listed : Js → List Js
listed (arr xs) = items xs
listed _ = []

-- The servers that it runs on, and the addresses that the inventory has them under.
abbrev pub etcd_servers : Bool → Props → Js
etcd_servers expert values = field values (server_keys (on_database_servers expert values)).servers

abbrev pub etcd_address : Bool → Props → Js → String
etcd_address expert values = text_of (server_keys (on_database_servers expert values)).ip_address

-- The form asks for a new etcd cluster; in the expert mode, the flag that says where it runs is
-- a Boolean.
pub record AsksForEtcd (expert : Bool) (values : Props) (on_db : Bool) : Type 0 where
  pub new : truthy (field values Dcs.is_deploy_new_cluster) ≡ true
  pub etcd : expert ≡ true → is_str (field values Dcs.type) DcsTypes.etcd ≡ true
  pub flag : expert ≡ true → field values Dcs.is_deploy_to_db_servers ≡ bool on_db

etcd-run :
    (expert : Bool) (values : Props) (on_db : Bool)
    → AsksForEtcd expert values on_db
    → construct_dcs_envs expert values ≡ (
        configure_hosts values none (expert && not on_db) (on_database_servers expert values)
        >>= λ hosts. ok (dcs_groups hosts end))
unfolding construct_dcs_envs new_dcs new_etcd
etcd-run false values on_db asks = rw asks.new refl
etcd-run true values on_db asks = rw (asks.new, asks.etcd refl, asks.flag refl) refl

three-servers :
    (expert : Bool) (values : Props) (on_db : Bool)
    → AsksForEtcd expert values on_db
    → is_high_availability expert values ≡ true
    → has_three (etcd_servers expert values) ≡ true
unfolding is_high_availability
three-servers expert values on_db asks high = ground (arith, asks.new, asks.flag)

has_three-arr :
    (v : Js) → has_three v ≡ true → (xs : Items) × (v ≡ arr xs) × (3 ≤ length (items xs))
has_three-arr v h = ground arith

-- If the summary calls a cluster with a new etcd highly available, no two of the servers that
-- etcd runs on have one address, and the groups of the inventory can be made, then the
-- group of etcd has at least three hosts.
pub high_availability-etcd :
    (expert : Bool) (values : Props) (on_db : Bool) (groups : Props)
    → AsksForEtcd expert values on_db
    → is_high_availability expert values ≡ true
    → HasDistinct (etcd_address expert values) (listed (etcd_servers expert values))
    → construct_dcs_envs expert values ≡ ok groups
    → (hosts : Props) × (lookup groups "etcd_cluster" ≡ some (group hosts)) × (3 ≤ size hosts)
unfolding lookup ◌⊕◌
high_availability-etcd expert values on_db groups asks high distinct e =
    let (xs, given, three) = has_three-arr _ (three-servers expert values on_db asks high) in
    let run = sym (etcd-run expert values on_db asks) ∙ e in
    let (hosts, here, e1) =
      bind-eq-ok
        (configure_hosts values none (expert && not on_db) (on_database_servers expert values)) _
        run in
    let count =
      configure_hosts-size values none (expert && not on_db) (on_database_servers expert values)
        hosts xs given here (rw given at distinct) in
    (
      hosts,
      ap (λ (g : Props). lookup g "etcd_cluster") (sym (ok-injective _ groups e1)),
      omega (arith, count, three),
    )
