-- ===== src/Export/Button.antt =====
-- `handleButtonClick`.
use postgresql_cluster.Common.{String, Bool, true, false, List, [], ◌∷◌, ◌++◌, if◌then◌else◌}
use postgresql_cluster.Js.{
  Js, obj, Props, end, prop, field, truthy, member, ◌≔◌, ◌⊕◌, Result, ok, thrown, ◌>>=◌,
}
use postgresql_cluster.Js.Text.{◌⧺◌}
use postgresql_cluster.Export.Keys.{with_exported_keys}
use postgresql_cluster.Export.Vars.{Tools, extra_vars_of, own_props, sorted_vars}
use postgresql_cluster.Export.Groups.{HostGroups, valid_servers, host_groups}

abbrev pub is_empty_props : Props → Bool
is_empty_props end = true
is_empty_props (prop k v ps) = false

-- `Object.keys(hosts).length ? hosts : {}`
abbrev pub hosts_or_empty : Props → Js
hosts_or_empty hosts = if is_empty_props hosts then obj end else obj hosts

unfoldable pub inventory_of : Props → HostGroups → Js
inventory_of vars g = obj (
    "all"
    ≔ obj (
        "vars" ≔ obj vars
        ⊕ "children"
          ≔ obj (
              "master" ≔ obj ("hosts" ≔ hosts_or_empty g.master)
              ⊕ "replica" ≔ obj ("hosts" ≔ hosts_or_empty g.replica)
              ⊕ "postgres_cluster"
                ≔ obj ("children" ≔ obj ("master" ≔ obj end ⊕ "replica" ≔ obj end))
              ⊕ "etcd_cluster" ≔ obj ("hosts" ≔ hosts_or_empty g.etcd)
              ⊕ "balancers"
                ≔ obj (
                    "hosts" ≔ (
                      if truthy (field vars "with_haproxy_load_balancing")
                      then hosts_or_empty g.balancers
                      else obj end)))))

-- The inventory, from the server's answer. The properties of `vars` are read twice, for the keys
-- and by `Object.keys`, and `with_exported_keys` leaves no object as it is.
unfoldable pub exported_inventory : Tools → Js → Result Js
unfolding extra_vars_of valid_servers host_groups with_exported_keys own_props sorted_vars
    inventory_of
exported_inventory tools response = do
  extra_vars ← member response "extra_vars"
  servers ← member response "servers"
  let vars = extra_vars_of tools extra_vars
  valid ← valid_servers servers
  groups ← host_groups vars valid
  keys ← member vars "ssh_public_keys"
  props ← own_props (with_exported_keys vars)
  ok (inventory_of (sorted_vars tools.le props) groups)

pub data Effect : Type 0 where
  downloaded : String → String → Effect
  exported_toast : String → Effect
  caught : Effect
  menu_closed : Effect

abbrev pub outcome : String → Result String → List Effect
outcome cluster_name (ok text) =
    downloaded (cluster_name ⧺ "-inventory.yaml") text ∷ exported_toast cluster_name ∷ []
outcome cluster_name thrown = caught ∷ []

-- The effects of a click, from the reply of the service.
unfoldable pub handle_button_click : Tools → String → Result Js → List Effect
unfolding exported_inventory
handle_button_click tools cluster_name reply =
    outcome cluster_name (reply >>= λ response. exported_inventory tools response >>= tools.dump)
    ++ menu_closed ∷ []
