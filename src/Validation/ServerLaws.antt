-- ===== src/Validation/ServerLaws.antt =====
-- A form for servers of one's own that is accepted has an inventory.
use postgresql_cluster.Common.{
  subst, sym, Bool, true, false, ◌≡◌, arith, and-true, String, List, [], ◌∷◌, All, none, Bool-cases,
  inl, inr,
}
use postgresql_cluster.Js.{
  Js, Items, arr, cons, items, Props, end, field, chain, truthy, member, Result, ok, ◌⊕◌, Returns,
  returned,
}
use postgresql_cluster.Schemas.{Yup, IsYup}
use postgresql_cluster.Fields.DatabaseServers
use postgresql_cluster.Fields.LoadBalancers
use postgresql_cluster.Fields.Dcs
use postgresql_cluster.Inventory.{
  collect_hosts, host_entry, hostname_props, server_keys, configure_hosts, construct_dcs_envs,
  construct_balancers_envs, balancers_from, balancer_entry, balancer_hosts, database_entry,
  replica_group, inventory_children, get_local_machine_envs,
}
use postgresql_cluster.Validation.Cloud.{is_local}
use postgresql_cluster.Validation.Servers.{database_server_test, database_servers_block_schema}
use postgresql_cluster.Validation.Form.{local_form_schema, default_schema, cluster_form_schema}

-- The items of an array.
abbrev listed : Js → List Js
listed (arr xs) = items xs
listed _ = []

accepted-default :
    (yup : Yup) (expert : Bool) (values : Props)
    → cluster_form_schema yup expert values ≡ true
    → default_schema yup expert values ≡ true
unfolding cluster_form_schema
accepted-default yup true values h = (and-true _ _ h).0
accepted-default yup false values h = h

-- What is accepted has an accepted part for servers of one's own.
pub accepted-local :
    (yup : Yup) (expert : Bool) (values : Props)
    → cluster_form_schema yup expert values ≡ true
    → local_form_schema yup expert values ≡ true
unfolding default_schema
accepted-local yup expert values h = (and-true _ _ (accepted-default yup expert values h)).1

accepted-block :
    (yup : Yup) (expert : Bool) (values : Props)
    → cluster_form_schema yup expert values ≡ true
    → database_servers_block_schema yup values ≡ true
unfolding local_form_schema
accepted-block yup expert values h =
    let (rest, dcs) = and-true _ _ (accepted-local yup expert values h) in
    let (first, balancers) = and-true _ _ rest in (and-true _ _ first).1

-- A server with an address.
abbrev HasAddress : Js → Type 0
HasAddress server = truthy (chain server DatabaseServers.database_ip_address) ≡ true

test-HasAddress :
    (yup : Yup) (server : Js)
    → IsYup yup
    → database_server_test yup server ≡ true
    → HasAddress server
test-HasAddress yup server laws h =
    let (rest, location) = and-true _ _ h in
    let (named, addressed) = and-true _ _ rest in
    laws.required (chain server DatabaseServers.database_ip_address) (and-true _ _ addressed).0

member-returns : (v : Js) (k : String) → truthy (chain v k) ≡ true → member v k ≡ ok (chain v k)
member-returns v k h = ground arith

module _ (entry : Js → Result Props)
    (returns : (server : Js) → HasAddress server → Returns (entry server)) where
  collect_hosts-Returns :
      (acc : Props) (servers : List Js)
      → All HasAddress servers
      → Returns (collect_hosts entry acc servers)
  unfolding collect_hosts
  collect_hosts-Returns acc [] _ = tt
  collect_hosts-Returns acc (server ∷ servers) (h, hs) =
      let (r, e) = returned (entry server) (returns server h) in
      rw e (collect_hosts-Returns (acc ⊕ r) servers hs)

database_entry-Returns :
    (expert : Bool) (values : Props) (server : Js)
    → HasAddress server
    → Returns (database_entry expert values server)
unfolding database_entry
database_entry-Returns expert values server h =
    rw (member-returns server DatabaseServers.database_ip_address h) tt

host_entry-Returns :
    (server : Js) → HasAddress server → Returns (host_entry (server_keys true) none false server)
unfolding host_entry hostname_props
host_entry-Returns server h = rw (member-returns server DatabaseServers.database_ip_address h) tt

balancer_entry-Returns :
    (server : Js)
    → HasAddress server
    → Returns (balancer_entry DatabaseServers.database_ip_address server)
unfolding balancer_entry
balancer_entry-Returns server h =
    rw (member-returns server DatabaseServers.database_ip_address h) tt

replica-Returns :
    (values : Props) (servers : List Js)
    → All HasAddress servers
    → Returns (replica_group false values servers)
unfolding replica_group
replica-Returns values [] _ = tt
replica-Returns values (server ∷ servers) addressed =
    let (hosts, e) = returned (collect_hosts (database_entry false values) end (server ∷ servers)) (
      collect_hosts-Returns (database_entry false values) (database_entry-Returns false values) end
        (server ∷ servers) addressed) in
    rw e tt

-- In the simple mode, the parts of the inventory can be made of servers with addresses.
module _ (values : Props) (first : Js) (rest : Items)
    (given : field values DatabaseServers.database_servers ≡ arr (cons first rest))
    (addressed : All HasAddress (items (cons first rest))) where
  dcs-Returns : Returns (construct_dcs_envs false values)
  unfolding construct_dcs_envs configure_hosts
  dcs-Returns = elim (Bool-cases (truthy (field values Dcs.is_deploy_new_cluster))) [
    | inl new ↦
        let (hosts, e) =
          returned
            (collect_hosts (host_entry (server_keys true) none false) end (items (cons first rest)))
            (collect_hosts-Returns (host_entry (server_keys true) none false) host_entry-Returns end
              (items (cons first rest)) addressed) in
        rw (new, given, e) tt
    | inr old ↦ rw old tt
  ]

  balancers-Returns : Returns (construct_balancers_envs false values)
  unfolding construct_balancers_envs balancer_hosts balancers_from
  balancers-Returns = elim (Bool-cases (truthy (field values LoadBalancers.is_haproxy_enabled))) [
    | inl enabled ↦
        let (hosts, e) =
          returned
            (collect_hosts (balancer_entry DatabaseServers.database_ip_address) end
              (items (cons first rest)))
            (collect_hosts-Returns (balancer_entry DatabaseServers.database_ip_address)
              balancer_entry-Returns end (items (cons first rest)) addressed) in
        rw (enabled, given, e) tt
    | inr disabled ↦ rw disabled tt
  ]

  children-Returns : Returns (inventory_children false values)
  unfolding inventory_children
  children-Returns =
      let (balancers, b) = returned (construct_balancers_envs false values) balancers-Returns in
      let (dcs, d) = returned (construct_dcs_envs false values) dcs-Returns in
      let (master, m) =
        returned (database_entry false values first)
          (database_entry-Returns false values first addressed.0) in
      let (replica, p) =
        returned (replica_group false values (items rest))
          (replica-Returns values (items rest) addressed.1) in
      rw (b, d, given, m, p) tt

All-map : {P Q : Js → Type 0} (l : List Js) → ((x : Js) → P x → Q x) → All P l → All Q l
All-map [] f _ = tt
All-map (x ∷ xs) f (h, hs) = (f x h, All-map xs f hs)

-- The items of an array that is accepted have what their test gives.
pub array-All :
    {P : Js → Type 0} (yup : Yup) (test : Js → Bool) (xs : Items)
    → IsYup yup
    → yup.array test (arr xs) ≡ true
    → ((x : Js) → test x ≡ true → P x)
    → All P (items xs)
array-All yup test xs laws tested f = elim (laws.each test (arr xs) tested) [
  | inl missing ↦ cc
  | inr (ys, same, each) ↦
      All-map (items xs) f (subst (λ (v : Js). All (λ x. test x ≡ true) (listed v)) (sym same) each)
]

accepted-addressed :
    (yup : Yup) (values : Props) (first : Js) (rest : Items)
    → IsYup yup
    → cluster_form_schema yup false values ≡ true
    → is_local values ≡ true
    → field values DatabaseServers.database_servers ≡ arr (cons first rest)
    → All HasAddress (items (cons first rest))
unfolding database_servers_block_schema
accepted-addressed yup values first rest laws accepted local given =
    let tested : yup.array (database_server_test yup) (arr (cons first rest)) ≡ true =
      rw (local, given) at (accepted-block yup false values accepted) in
    array-All yup (database_server_test yup) (cons first rest) laws tested
      (λ server h. test-HasAddress yup server laws h)

-- In the simple mode, if the schema accepts a form for servers of one's own that lists a server,
-- then the environment of the request can be made, without an exception.
pub accepted-Returns :
    (yup : Yup) (values : Props) (secret_id first : Js) (rest : Items)
    → IsYup yup
    → cluster_form_schema yup false values ≡ true
    → is_local values ≡ true
    → field values DatabaseServers.database_servers ≡ arr (cons first rest)
    → Returns (get_local_machine_envs false values secret_id)
unfolding get_local_machine_envs
accepted-Returns yup values secret_id first rest laws accepted local given =
    let (children, e) = returned (inventory_children false values) (
      children-Returns values first rest given
        (accepted-addressed yup values first rest laws accepted local given)) in
    rw e tt
