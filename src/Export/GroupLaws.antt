-- ===== src/Export/GroupLaws.antt =====
-- Which servers the groups hold.
use postgresql_cluster.Common.{
  sym, String, Bool, true, false, not, ◌&&◌, ◌||◌, ◌==◌, ◌≡◌, refl, arith, Option, none, some, List,
  [], ◌∷◌, subst,
}
use postgresql_cluster.Js.{
  Js, Props, lookup, lookup-put, truthy, chain, member, ok, bind-eq-ok, ok-injective,
  member-eq-chain,
}
use postgresql_cluster.Export.Groups.{
  HostGroups, no_hosts, address, is_primary, put_if, host_data, host_address, add_server,
  add_servers, host_groups,
}

abbrev pub is_some : Option Js → Bool
is_some none = false
is_some (some v) = true

-- Whether one of the servers that pass a test has the address.
abbrev pub has_server : (Js → Bool) → String → List Js → Bool
has_server test k [] = false
has_server test k (server ∷ servers) =
    (test server && address server == k) || has_server test k servers

-- What a group holds after more servers.
abbrev Grows : (Js → Bool) → Props → Props → String → List Js → Type 0
Grows test before after k servers =
    is_some (lookup after k) ≡ (is_some (lookup before k) || has_server test k servers)

record AllGrow (balanced : Bool) (g h : HostGroups) (k : String) (servers : List Js) : Type 0 where
  master : Grows is_primary g.master h.master k servers
  replica : Grows (λ s. not (is_primary s)) g.replica h.replica k servers
  etcd : Grows (λ s. true) g.etcd h.etcd k servers
  balancers : Grows (λ s. balanced) g.balancers h.balancers k servers

put_if-is_some :
    (b : Bool) (ps : Props) (j k : String) (v : Js)
    → is_some (lookup (put_if b ps j v) k) ≡ (is_some (lookup ps k) || (b && j == k))
put_if-is_some b ps j k v = ground (arith, lookup-put ps j v k)

grows_trans :
    (a b c : Option Js) (first rest : Bool)
    → is_some b ≡ (is_some a || first)
    → is_some c ≡ (is_some b || rest)
    → is_some c ≡ (is_some a || (first || rest))
grows_trans a b c first rest p q = ground arith

or-false : (b : Bool) → b ≡ (b || false)
or-false true = refl
or-false false = refl

add_servers-AllGrow :
    (balanced : Bool) (g : HostGroups) (k : String) (servers : List Js)
    → AllGrow balanced g (add_servers balanced g servers) k servers
unfolding add_servers add_server
add_servers-AllGrow balanced g k [] = record {
  master = or-false (is_some (lookup g.master k));
  replica = or-false (is_some (lookup g.replica k));
  etcd = or-false (is_some (lookup g.etcd k));
  balancers = or-false (is_some (lookup g.balancers k));
}
add_servers-AllGrow balanced g k (server ∷ servers) =
    let rest = add_servers-AllGrow balanced (add_server balanced g server) k servers in
    record {
      master =
          grows_trans (lookup g.master k) _ _ _ _
            (put_if-is_some (is_primary server) g.master (address server) k (host_data server))
            rest.master;
      replica =
          grows_trans (lookup g.replica k) _ _ _ _
            (put_if-is_some (not (is_primary server)) g.replica (address server) k
              (host_data server))
            rest.replica;
      etcd =
          grows_trans (lookup g.etcd k) _ _ _ _
            (put_if-is_some true g.etcd (address server) k (host_address server)) rest.etcd;
      balancers =
          grows_trans (lookup g.balancers k) _ _ _ _
            (put_if-is_some balanced g.balancers (address server) k (host_address server))
            rest.balancers;
    }

-- What the groups hold at an address.
abbrev pub Holds : Js → List Js → HostGroups → String → Type 0
Holds balanced servers g k =
    (is_some (lookup g.master k) ≡ has_server is_primary k servers)
    × (is_some (lookup g.replica k) ≡ has_server (λ s. not (is_primary s)) k servers)
    × (is_some (lookup g.etcd k) ≡ has_server (λ s. true) k servers)
    × (is_some (lookup g.balancers k) ≡ has_server (λ s. truthy balanced) k servers)

added-Holds :
    (balanced : Js) (servers : List Js) (k : String)
    → Holds balanced servers (add_servers (truthy balanced) no_hosts servers) k
unfolding lookup
added-Holds balanced servers k =
    let all = add_servers-AllGrow (truthy balanced) no_hosts k servers in
    (all.master, all.replica, all.etcd, all.balancers)

-- The groups that are made of the servers hold, under an address: the master one exactly if a
-- server in a leading role has it, the replica one exactly if another server has it, the group of
-- etcd exactly if any server has it, and that of the balancers exactly if any has it and the
-- cluster balances with HAProxy.
pub host_groups-has_server :
    (vars : Js) (servers : List Js) (g : HostGroups) (k : String)
    → host_groups vars servers ≡ ok g
    → (is_some (lookup g.master k) ≡ has_server is_primary k servers)
      × (is_some (lookup g.replica k) ≡ has_server (λ s. not (is_primary s)) k servers)
      × (is_some (lookup g.etcd k) ≡ has_server (λ s. true) k servers)
      × (is_some (lookup g.balancers k)
          ≡ has_server (λ s. truthy (chain vars "with_haproxy_load_balancing")) k servers)
unfolding host_groups lookup
host_groups-has_server vars [] g k made =
    let same = ok-injective no_hosts g made in rw (sym same) (refl, refl, refl, refl)
host_groups-has_server vars (server ∷ servers) g k made =
    let (balanced, read, built) = bind-eq-ok (member vars "with_haproxy_load_balancing") _ made in
    subst (λ (v : Js). Holds v (server ∷ servers) g k)
      (member-eq-chain vars "with_haproxy_load_balancing" balanced read)
      (subst (λ (h : HostGroups). Holds balanced (server ∷ servers) h k)
        (ok-injective (add_servers (truthy balanced) no_hosts (server ∷ servers)) g built)
        (added-Holds balanced (server ∷ servers) k))
