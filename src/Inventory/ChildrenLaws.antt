-- ===== src/Inventory/ChildrenLaws.antt =====
-- The master and the replicas of the inventory.
use postgresql_cluster.Common.{
  refl, [], ◌∷◌, Bool, ◌≡◌, List, some, subst, none, sym, ◌∷◌, or_else-none,
}
use postgresql_cluster.Js.{
  Js, Props, ok, arr, cons, items, lookup, Items, ◌⊕◌, field, ◌≔◌, bind-eq-ok, obj, ok-injective,
  end, Ensures-ok, Ensures, object_laws, Ensures-any,
}
use postgresql_cluster.Fields.DatabaseServers
use postgresql_cluster.Inventory.Groups.{construct_dcs_envs, construct_balancers_envs}
use postgresql_cluster.Inventory.Hosts.{collect_hosts}
use postgresql_cluster.Inventory.Envs.{database_entry, replica_group, inventory_children}
use postgresql_cluster.Inventory.ServerLaws.{
  address, database_host, IsReplicaGroup, LacksReplica, database_entry-Describes,
  replica_group-IsReplicaGroup, construct_dcs_envs-LacksReplica, balancers-LacksReplica,
}

-- The parts of the groups of the inventory.
record InventoryParts (expert : Bool) (values r : Props) (first : Js) (rest : List Js)
    : Type 0 where
  balancers : Props
  dcs : Props
  replica : Props
  from_balancers : construct_balancers_envs expert values ≡ ok balancers
  from_dcs : construct_dcs_envs expert values ≡ ok dcs
  from_replica : replica_group expert values rest ≡ ok replica
  result :
      balancers
        ⊕ dcs
        ⊕ "master" ≔ obj ("hosts" ≔ obj (address first ≔ database_host expert values first))
        ⊕ replica
        ⊕ "postgres_cluster" ≔ obj ("children" ≔ obj ("master" ≔ obj end ⊕ "replica" ≔ obj end))
      ≡ r

inventory_parts :
    (expert : Bool) (values r : Props) (first : Js) (rest : Items)
    → field values DatabaseServers.database_servers ≡ arr (cons first rest)
    → inventory_children expert values ≡ ok r
    → InventoryParts expert values r first (items rest)
unfolding inventory_children
inventory_parts expert values r first rest given e =
    let (balancers, from_balancers, e1) = bind-eq-ok (construct_balancers_envs expert values) _ e in
    let (dcs, from_dcs, e2) = bind-eq-ok (construct_dcs_envs expert values) _ e1 in
    let e3 = rw given at e2 in
    let (master, from_master, e4) = bind-eq-ok (database_entry expert values first) _ e3 in
    let (replica, from_replica, e5) = bind-eq-ok (replica_group expert values (items rest)) _ e4 in
    let same = (database_entry-Describes expert values).reads first master from_master in
    record {
      balancers = balancers;
      dcs = dcs;
      replica = replica;
      from_balancers = from_balancers;
      from_dcs = from_dcs;
      from_replica = from_replica;
      result = rw (← same) (ok-injective _ r e5);
    }

replica_group-master :
    (expert : Bool) (values : Props) (servers : List Js)
    → Ensures (λ r. lookup r "master" ≡ none) (replica_group expert values servers)
unfolding replica_group lookup
replica_group-master expert values [] = refl
replica_group-master expert values (server ∷ servers) =
    Ensures-any (λ r. lookup r "master" ≡ none)
      (collect_hosts (database_entry expert values) end (server ∷ servers)) _ (λ hosts. refl)

module _ {expert : Bool} {values r : Props} {first : Js} {rest : List Js}
    (p : InventoryParts expert values r first rest) where
  at_master :
      lookup r "master"
      ≡ some (obj ("hosts" ≔ obj (address first ≔ database_host expert values first)))
  unfolding lookup
  at_master =
      let replica =
        Ensures-ok (λ r. lookup r "master" ≡ none) (replica_group expert values rest) p.replica
          (replica_group-master expert values rest) p.from_replica in
      rw (← p.result) (simp (object_laws, replica))

  at_replica : lookup r "replica" ≡ lookup p.replica "replica"
  unfolding lookup
  at_replica =
      let balancers =
        Ensures-ok LacksReplica (construct_balancers_envs expert values) p.balancers
          (balancers-LacksReplica expert values) p.from_balancers in
      let dcs =
        Ensures-ok LacksReplica (construct_dcs_envs expert values) p.dcs
          (construct_dcs_envs-LacksReplica expert values) p.from_dcs in
      rw (← p.result) (simp (object_laws, balancers, dcs, or_else-none))

-- Where the form holds a first database server and others, the inventory's master is the first,
-- its replicas are the others, each under its address, and there is no group of replicas if
-- there are no others.
pub inventory_children-servers :
    (expert : Bool) (values r : Props) (first : Js) (rest : Items)
    → field values DatabaseServers.database_servers ≡ arr (cons first rest)
    → inventory_children expert values ≡ ok r
    → (lookup r "master"
        ≡ some (obj ("hosts" ≔ obj (address first ≔ database_host expert values first))))
      × IsReplicaGroup expert values (items rest) (lookup r "replica")
inventory_children-servers expert values r first rest given e =
    let p = inventory_parts expert values r first rest given e in
    let group = replica_group-IsReplicaGroup expert values (items rest) p.replica p.from_replica in
    (at_master p, subst (IsReplicaGroup expert values (items rest)) (sym (at_replica p)) group)
