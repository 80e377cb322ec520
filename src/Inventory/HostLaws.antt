-- ===== src/Inventory/HostLaws.antt =====
-- What the hosts of a group are, in terms of the servers of the form.
use postgresql_cluster.Common.{
  ◌∙◌, or_else-none, ◌+◌, String, Bool, true, false, ◌≡◌, ◌≢◌, refl, sym, ap, Option, some, none,
  arith, or_else, or_else_assoc, List, [], ◌∷◌, ◌==◌, if◌then◌else◌, length, All, ne_test,
}
use postgresql_cluster.Js.{
  Items, arr, items, field, Js, obj, Props, end, chain, lookup, object_laws, ◌≔◌, ◌⊕◌, size,
  size-⊕-≔, Result, ok, bind-eq-ok, ok-injective, to_string, member, member-eq-chain,
}
use postgresql_cluster.Inventory.Hosts.{
  ServerKeys, role_props, hostname_props, host_entry, collect_hosts, configure_hosts, server_keys,
}

-- A reader of one server gives its address and its host.
pub record Describes (entry : Js → Result Props) (address : Js → String) (host : Js → Js)
    : Type 0 where
  pub reads : (server : Js) (r : Props) → entry server ≡ ok r → r ≡ (address server ≔ host server)

-- The host of the last server with an address.
abbrev pub last_host : (Js → String) → (Js → Js) → List Js → String → Option Js
last_host address host [] k = none
last_host address host (server ∷ servers) k =
    or_else (last_host address host servers k)
      (if address server == k then some (host server) else none)

-- No two servers have one address.
abbrev pub HasDistinct : (Js → String) → List Js → Type 0
HasDistinct address [] = Unit
HasDistinct address (server ∷ servers) =
    All (λ other. address server ≢ address other) servers × HasDistinct address servers

abbrev IsFresh : (Js → String) → Props → List Js → Type 0
IsFresh address acc servers = All (λ server. lookup acc (address server) ≡ none) servers

IsFresh-end : (address : Js → String) (servers : List Js) → IsFresh address end servers
unfolding lookup
IsFresh-end address [] = tt
IsFresh-end address (server ∷ servers) = (refl, IsFresh-end address servers)

module _ {entry : Js → Result Props} {address : Js → String} {host : Js → Js}
    (d : Describes entry address host) where
  pub collect_hosts-lookup :
      (acc : Props) (servers : List Js) (hosts : Props) (k : String)
      → collect_hosts entry acc servers ≡ ok hosts
      → lookup hosts k ≡ or_else (last_host address host servers k) (lookup acc k)
  unfolding collect_hosts
  collect_hosts-lookup acc [] hosts k e =
      ap (λ (h : Props). lookup h k) (sym (ok-injective acc hosts e))
  collect_hosts-lookup acc (server ∷ servers) hosts k e =
      let (r, here, later) = bind-eq-ok (entry server) _ e in
      let same = d.reads server r here in
      let ih = collect_hosts-lookup (acc ⊕ r) servers hosts k later in
      rw ih (rw same (simp object_laws (unfold lookup in simp or_else_assoc)))

  IsFresh-⊕ :
      (acc : Props) (server : Js) (servers : List Js)
      → All (λ other. address server ≢ address other) servers
      → IsFresh address acc servers
      → IsFresh address (acc ⊕ (address server ≔ host server)) servers
  IsFresh-⊕ acc server [] _ _ = tt
  IsFresh-⊕ acc server (other ∷ servers) (ne, nes) (f, fs) = (
    simp object_laws (unfold lookup in rw (ne_test _ _ ne) f),
    IsFresh-⊕ acc server servers nes fs,
  )

  collect_hosts-size :
      (acc : Props) (servers : List Js) (hosts : Props)
      → HasDistinct address servers
      → IsFresh address acc servers
      → collect_hosts entry acc servers ≡ ok hosts
      → size hosts ≡ size acc + length servers
  unfolding collect_hosts
  collect_hosts-size acc [] hosts _ _ e = omega (arith, ap size (ok-injective acc hosts e))
  collect_hosts-size acc (server ∷ servers) hosts (ne, nes) (f, fs) e =
      let (r, here, later) = bind-eq-ok (entry server) _ e in
      let same = d.reads server r here in
      let grown = size-⊕-≔ acc (address server) (host server) f in
      let run : collect_hosts entry (acc ⊕ (address server ≔ host server)) servers ≡ ok hosts =
        rw same at later in
      omega (
        arith,
        grown,
        collect_hosts-size (acc ⊕ (address server ≔ host server)) servers hosts nes
            (IsFresh-⊕ acc server servers ne fs) run,
      )

-- The text of a field of a server.
abbrev pub text_of : String → Js → String
text_of key server = to_string (chain server key)

-- The host that `configureHosts` makes of a server.
abbrev pub named : Bool → Option String → Js → Props
named false key server = end
named true none server = end
named true (some key) server = "hostname" ≔ chain server key

abbrev pub host_of : ServerKeys → Option String → Bool → Js → Js
host_of keys role should_add_hostname server = obj (
    "ansible_host" ≔ chain server keys.ip_address
    ⊕ named should_add_hostname keys.hostname server
    ⊕ role_props role)

hostname_props-eq :
    (add : Bool) (key : Option String) (server : Js) (r : Props)
    → hostname_props add key server ≡ ok r
    → r ≡ named add key server
unfolding hostname_props
hostname_props-eq false key server r e = sym (ok-injective _ r e)
hostname_props-eq true none server r e = sym (ok-injective _ r e)
hostname_props-eq true (some key) server r e =
    let (w, here, later) = bind-eq-ok (member server key) _ e in
    cc (later, member-eq-chain server key w here)

module _ (keys : ServerKeys) (role : Option String) (add : Bool) where
  pub host_entry-Describes :
      Describes (host_entry keys role add) (text_of keys.ip_address) (host_of keys role add)
  unfolding host_entry
  host_entry-Describes = record {
    reads = λ server r e.
        let (ip, here, e1) = bind-eq-ok (member server keys.ip_address) _ e in
        let (name, there, e2) = bind-eq-ok (hostname_props add keys.hostname server) _ e1 in
        cc (
          ok-injective _ r e2,
          member-eq-chain server keys.ip_address ip here,
          hostname_props-eq add keys.hostname server name there,
        );
  }

-- `configureHosts`, for servers that are an array.
module _ (values : Props) (role : Option String) (add is_db : Bool) (hosts : Props) (xs : Items)
    (given : field values (server_keys is_db).servers ≡ arr xs)
    (e : configure_hosts values role add is_db ≡ ok hosts) where
  configure_hosts-run :
      collect_hosts (host_entry (server_keys is_db) role add) end (items xs) ≡ ok hosts
  unfolding configure_hosts
  configure_hosts-run = rw given at e

  -- At each key stands the host of the last server with that address, and nothing if there is
  -- no such server.
  pub configure_hosts-lookup :
      (k : String)
      → lookup hosts k
        ≡ last_host
            (text_of (server_keys is_db).ip_address)
            (host_of (server_keys is_db) role add)
            (items xs)
            k
  unfolding lookup
  configure_hosts-lookup k =
      collect_hosts-lookup (host_entry-Describes (server_keys is_db) role add) end (items xs) hosts
        k configure_hosts-run
      ∙ or_else-none _

  -- If no two servers have one address, there are as many hosts as servers.
  pub configure_hosts-size :
      HasDistinct (text_of (server_keys is_db).ip_address) (items xs)
      → size hosts ≡ length (items xs)
  configure_hosts-size distinct = omega (
    arith,
    collect_hosts-size (host_entry-Describes (server_keys is_db) role add) end (items xs) hosts
        distinct (IsFresh-end (text_of (server_keys is_db).ip_address) (items xs))
        configure_hosts-run,
  )
