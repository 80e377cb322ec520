-- ===== src/Export/ButtonLaws.antt =====
-- When a click downloads the inventory.
use postgresql_cluster.Common.{String, ◌≡◌, refl, arith, All, List, [], ◌∷◌}
use postgresql_cluster.Js.{
  Js, undefined, null, nan, bool, num, str, arr, obj, Props, Items, items, field, ok, Returns,
  returned,
}
use postgresql_cluster.Js.Text.{◌⧺◌}
use postgresql_cluster.Export.Keys.{with_exported_keys}
use postgresql_cluster.Export.Vars.{Tools, extra_vars_of, own_props}
use postgresql_cluster.Export.Groups.{is_valid_server, valid_of, valid_servers, host_groups}
use postgresql_cluster.Export.Button.{
  downloaded, exported_toast, menu_closed, exported_inventory, handle_button_click,
}

abbrev pub IsObject : Js → Type 0
IsObject (obj ps) = Unit
IsObject v = ⊥

is_valid_server-Returns : (server : Js) → IsObject server → Returns (is_valid_server server)
unfolding is_valid_server
is_valid_server-Returns (obj ps) h = tt
is_valid_server-Returns undefined h = absurd h
is_valid_server-Returns null h = absurd h
is_valid_server-Returns nan h = absurd h
is_valid_server-Returns (bool b) h = absurd h
is_valid_server-Returns (num n) h = absurd h
is_valid_server-Returns (str s) h = absurd h
is_valid_server-Returns (arr xs) h = absurd h

valid_of-Returns : (servers : List Js) → All IsObject servers → Returns (valid_of servers)
unfolding valid_of
valid_of-Returns [] h = tt
valid_of-Returns (server ∷ servers) (h, hs) =
    let (valid, e) = returned (is_valid_server server) (is_valid_server-Returns server h) in
    let (rest, f) = returned (valid_of servers) (valid_of-Returns servers hs) in rw (e, f) tt

host_groups-Returns : (vars : Props) (servers : List Js) → Returns (host_groups (obj vars) servers)
unfolding host_groups
host_groups-Returns vars [] = tt
host_groups-Returns vars (server ∷ servers) = tt

own_props-Returns : (vars : Props) → Returns (own_props (with_exported_keys (obj vars)))
unfolding own_props with_exported_keys
own_props-Returns vars = ground arith

exported_inventory-Returns :
    (tools : Tools) (response vars : Props) (servers : Items)
    → extra_vars_of tools (field response "extra_vars") ≡ obj vars
    → field response "servers" ≡ arr servers
    → All IsObject (items servers)
    → Returns (exported_inventory tools (obj response))
unfolding exported_inventory valid_servers
exported_inventory-Returns tools response vars servers parsed given objects =
    let (valid, v) =
      returned (valid_of (items servers)) (valid_of-Returns (items servers) objects) in
    let (groups, g) = returned (host_groups (obj vars) valid) (host_groups-Returns vars valid) in
    let (props, p) =
      returned (own_props (with_exported_keys (obj vars))) (own_props-Returns vars) in
    rw (parsed, given, v, g, p) tt

-- If the service answers with an array of servers that are objects, the variables are an object or
-- can be read as one, and the text of every value can be made, then a click downloads a text under
-- the name of the cluster, says so, and closes the menu.
pub handle_button_click-downloads :
    (tools : Tools) (cluster_name : String) (response vars : Props) (servers : Items)
    → extra_vars_of tools (field response "extra_vars") ≡ obj vars
    → field response "servers" ≡ arr servers
    → All IsObject (items servers)
    → ((v : Js) → Returns (tools.dump v))
    → (text : String) × (handle_button_click tools cluster_name (ok (obj response))
        ≡ downloaded (cluster_name ⧺ "-inventory.yaml") text
          ∷ exported_toast cluster_name
          ∷ menu_closed
          ∷ [])
unfolding handle_button_click
handle_button_click-downloads tools cluster_name response vars servers parsed given objects dumps =
    let (inventory, e) =
      returned (exported_inventory tools (obj response))
        (exported_inventory-Returns tools response vars servers parsed given objects) in
    let (text, d) = returned (tools.dump inventory) (dumps inventory) in (text, rw (e, d) refl)
