-- ===== src/Inventory/ServerLaws.antt =====
-- How the database servers of the form are spread over the groups of the inventory.
use postgresql_cluster.Common.{
  ◌∙◌, or_else-none, String, Bool, true, false, not, ◌&&◌, ◌≡◌, refl, sym, ap, Bool-cases, inl, inr,
  Option, some, none, List, [], ◌∷◌,
}
use postgresql_cluster.Js.{
  truthy, is_str, Js, obj, Props, end, chain, field, lookup, ◌≔◌, ◌⊕◌, ok, bind-eq-ok, ok-injective,
  Ensures, Result-cases, member, member-eq-chain,
}
use postgresql_cluster.Fields.DatabaseServers
use postgresql_cluster.Fields.Dcs
use postgresql_cluster.Constants.DcsTypes
use postgresql_cluster.Inventory.Hosts.{collect_hosts, configure_hosts}
use postgresql_cluster.Inventory.Groups.{
  default_true, construct_dcs_envs, construct_balancers_envs, new_dcs, new_etcd, new_consul,
  balancer_hosts,
}
use postgresql_cluster.Inventory.Envs.{postgresql_exists, database_entry, replica_group}
use postgresql_cluster.Inventory.HostLaws.{Describes, last_host, text_of, collect_hosts-lookup}

-- The address and the host of a database server.
abbrev pub address : Js → String
address = text_of DatabaseServers.database_ip_address

abbrev pub database_host : Bool → Props → Js → Js
database_host expert values server = obj (
    "hostname" ≔ chain server DatabaseServers.database_hostname
    ⊕ "ansible_host" ≔ chain server DatabaseServers.database_ip_address
    ⊕ "server_location" ≔ chain server DatabaseServers.database_location
    ⊕ "postgresql_exists" ≔ postgresql_exists expert values server)

pub database_entry-Describes :
    (expert : Bool) (values : Props)
    → Describes (database_entry expert values) address (database_host expert values)
unfolding database_entry
database_entry-Describes expert values = record {
  reads = λ server r e.
      let (ip, here, e1) = bind-eq-ok (member server DatabaseServers.database_ip_address) _ e in
      cc (ok-injective _ r e1, member-eq-chain server DatabaseServers.database_ip_address ip here);
}

-- The group of the replicas holds exactly the hosts of the servers; there is none without them.
abbrev pub IsReplicaGroup : Bool → Props → List Js → Option Js → Type 0
IsReplicaGroup expert values [] v = v ≡ none
IsReplicaGroup expert values (server ∷ servers) v =
    (hosts : Props) × (v ≡ some (obj ("hosts" ≔ obj hosts)))
    × ((k : String)
        → lookup hosts k ≡ last_host address (database_host expert values) (server ∷ servers) k)

abbrev pub LacksReplica : Props → Type 0
LacksReplica r = lookup r "replica" ≡ none

pub replica_group-IsReplicaGroup :
    (expert : Bool) (values : Props) (servers : List Js) (r : Props)
    → replica_group expert values servers ≡ ok r
    → IsReplicaGroup expert values servers (lookup r "replica")
unfolding replica_group lookup
replica_group-IsReplicaGroup expert values [] r e =
    ap (λ (x : Props). lookup x "replica") (sym (ok-injective _ r e))
replica_group-IsReplicaGroup expert values (server ∷ servers) r e =
    let (hosts, here, e1) =
      bind-eq-ok (collect_hosts (database_entry expert values) end (server ∷ servers)) _ e in
    (
      hosts,
      ap (λ (x : Props). lookup x "replica") (sym (ok-injective _ r e1)),
      λ k.
          collect_hosts-lookup (database_entry-Describes expert values) end (server ∷ servers) hosts
            k here
          ∙ or_else-none _,
    )

new_etcd-LacksReplica : (values : Props) → Ensures LacksReplica (new_etcd values)
unfolding new_etcd lookup ◌⊕◌
new_etcd-LacksReplica values =
    let on_db = field values Dcs.is_deploy_to_db_servers in
    elim (Result-cases (configure_hosts values none (not (truthy on_db)) (default_true on_db))) [
      | inl (hosts, e) ↦ rw e refl
      | inr e ↦ rw e tt
    ]

new_consul-LacksReplica : (values : Props) → Ensures LacksReplica (new_consul values)
unfolding new_consul lookup ◌⊕◌
new_consul-LacksReplica values =
    elim (Bool-cases (truthy (field values Dcs.is_deploy_to_db_servers))) [
      | inl on ↦ elim (Result-cases (configure_hosts values (some "server") false true)) [
        | inl (hosts, e) ↦ rw (on, e) refl
        | inr e ↦ rw (on, e) tt
      ]
      | inr off ↦ elim (Result-cases (configure_hosts values (some "client") false true)) [
        | inl (hosts, e) ↦ elim (Result-cases (configure_hosts values (some "server") true false)) [
          | inl (more, f) ↦ rw (off, e, f) refl
          | inr f ↦ rw (off, e, f) tt
        ]
        | inr e ↦ rw (off, e) tt
      ]
    ]

new_dcs-LacksReplica : (values : Props) → Ensures LacksReplica (new_dcs values)
unfolding new_dcs lookup ◌⊕◌
new_dcs-LacksReplica values = elim (Bool-cases (is_str (field values Dcs.type) DcsTypes.etcd)) [
  | inl etcd ↦ rw etcd (new_etcd-LacksReplica values)
  | inr other ↦ elim (Bool-cases (is_str (field values Dcs.type) DcsTypes.consul)) [
    | inl consul ↦ rw (other, consul) (new_consul-LacksReplica values)
    | inr neither ↦ rw (other, neither) refl
  ]
]

-- The groups of the DCS are none of the groups of the database servers.
pub construct_dcs_envs-LacksReplica :
    (expert : Bool) (values : Props) → Ensures LacksReplica (construct_dcs_envs expert values)
unfolding construct_dcs_envs lookup ◌⊕◌
construct_dcs_envs-LacksReplica expert values =
    elim (Bool-cases (truthy (field values Dcs.is_deploy_new_cluster))) [
      | inl new ↦ elim (Bool-cases expert) [
        | inl yes_expert ↦ rw (new, yes_expert) (new_dcs-LacksReplica values)
        | inr no_expert ↦ elim (Result-cases (configure_hosts values none false true)) [
          | inl (hosts, e) ↦ rw (new, no_expert, e) refl
          | inr e ↦ rw (new, no_expert, e) tt
        ]
      ]
      | inr old ↦ elim (Bool-cases (expert && is_str (field values Dcs.type) DcsTypes.consul)) [
        | inl consul ↦ elim (Result-cases (configure_hosts values (some "client") false true)) [
          | inl (hosts, e) ↦ rw (old, consul, e) refl
          | inr e ↦ rw (old, consul, e) tt
        ]
        | inr other ↦ rw (old, other) refl
      ]
    ]

pub balancers-LacksReplica :
    (expert : Bool) (values : Props) → Ensures LacksReplica (construct_balancers_envs expert values)
unfolding construct_balancers_envs lookup
balancers-LacksReplica expert values = elim (Result-cases (balancer_hosts expert values)) [
  | inl (hosts, e) ↦ rw e refl
  | inr e ↦ rw e tt
]
