-- ===== src/Export/Tests.antt =====
-- Runs of the export.
use postgresql_cluster.Common.{
  List, map, not, Bool-cases, ℕ, suc, String, Bool, true, ◌≡◌, refl, [], ◌∷◌, leb, ◌⊎◌, inl, inr,
  arith,
}
use postgresql_cluster.Js.{
  from_list, items_of, Js, bool, num, str, arr, obj, nil, cons, Items, Props, end, prop, lookup,
  Result, ok, thrown, items, field, truthy,
}
use postgresql_cluster.Export.{
  no_hosts, is_primary, Tools, sorted_vars, keys_of, exported_keys, key_line, handle_button_click,
  host_groups, HostGroups,
}
use postgresql_cluster.Export.KeyLaws.{exported_keys-AreLines, AreLines, key_solids}
use postgresql_cluster.Export.VarLaws.{sorted_vars-IsSorted, IsEnumerated}
use postgresql_cluster.Export.AssignLaws.{IsOrder}
use postgresql_cluster.Export.GroupLaws.{host_groups-has_server, has_server, is_some}
use postgresql_cluster.Export.ButtonLaws.{handle_button_click-downloads}
use postgresql_cluster.Export.Button.{downloaded, exported_toast, menu_closed}

key_line_test : key_line " 'ssh-rsa  AAAA\nme' " ≡ "ssh-rsa AAAA me"
unfolding key_line
key_line_test = refl

abbrev exported_server : String → String → Js
exported_server address role =
    obj (prop "ip" (str address) (prop "name" (str "pg") (prop "role" (str role) end)))

abbrev exported_servers : Items
exported_servers =
    cons (exported_server "10.0.0.1" "leader") (cons (exported_server "10.0.0.2" "replica") nil)

-- Texts by their lengths, as an order of texts.
abbrev text_length : String → ℕ
text_length String.[] = 0
text_length (String.◌∷◌ c s) = suc (text_length s)

abbrev no_longer : String → String → Bool
no_longer a b = leb (text_length a) (text_length b)

leb_total : (m n : ℕ) → (leb m n ≡ true) ⊎ (leb n m ≡ true)
leb_total m n = elim (Bool-cases (leb m n)) [ inl h ↦ inl h | inr h ↦ inr (ground arith) ]

leb_trans : (m n o : ℕ) → leb m n ≡ true → leb n o ≡ true → leb m o ≡ true
leb_trans m n o h k = ground arith

no_longer-IsOrder : IsOrder no_longer
no_longer-IsOrder = record {
  total = λ a b. leb_total (text_length a) (text_length b);
  trans = λ a b c. leb_trans (text_length a) (text_length b) (text_length c);
}

abbrev sample_tools : Tools
sample_tools = record { parse = λ s. thrown; dump = λ v. ok "all:"; le = no_longer }

abbrev sample_vars : Props
sample_vars =
    prop "with_haproxy_load_balancing" (bool true) (prop "ssh_public_keys" (str "'k  1'") end)

sorted_vars-IsSorted_example :
    IsEnumerated no_longer (keys_of (sorted_vars no_longer sample_vars))
    × ((k : String) → lookup (sorted_vars no_longer sample_vars) k ≡ lookup sample_vars k)
sorted_vars-IsSorted_example = sorted_vars-IsSorted no_longer sample_vars no_longer-IsOrder

-- Array indices come first, in the order of their numbers.
index_test :
    keys_of (
      sorted_vars no_longer
        (prop "a" (num 1) (prop "10" (num 2) (prop "9" (num 3) (prop "01" (num 4) end)))))
    ≡ "9" ∷ "10" ∷ "a" ∷ "01" ∷ []
unfolding sorted_vars postgresql_cluster.Js.put
index_test = refl

abbrev sample_keys : Js
sample_keys = arr (cons (str " ssh-rsa  AAAA\n") (cons (str " ") (cons (num 1) nil)))

exported_keys-AreLines_example :
    (lines : List String) × (exported_keys sample_keys ≡ arr (from_list (map str lines)))
    × AreLines lines (key_solids sample_keys)
exported_keys-AreLines_example = exported_keys-AreLines sample_keys refl (refl, (refl, tt))

abbrev groups_or : Result HostGroups → HostGroups
groups_or (ok g) = g
groups_or thrown = no_hosts

abbrev sample_groups : HostGroups
sample_groups = groups_or (host_groups (obj sample_vars) (items exported_servers))

host_groups-has_server_example :
    (is_some (lookup sample_groups.master "10.0.0.2")
      ≡ has_server is_primary "10.0.0.2" (items exported_servers))
    × (is_some (lookup sample_groups.replica "10.0.0.2")
        ≡ has_server (λ s. not (is_primary s)) "10.0.0.2" (items exported_servers))
    × (is_some (lookup sample_groups.etcd "10.0.0.2")
        ≡ has_server (λ s. true) "10.0.0.2" (items exported_servers))
    × (is_some (lookup sample_groups.balancers "10.0.0.2")
        ≡ has_server (λ s. truthy (bool true)) "10.0.0.2" (items exported_servers))
unfolding host_groups field
host_groups-has_server_example =
    host_groups-has_server (obj sample_vars) (items exported_servers) sample_groups "10.0.0.2" refl

sorted_test :
    keys_of (sorted_vars no_longer sample_vars)
    ≡ "ssh_public_keys" ∷ "with_haproxy_load_balancing" ∷ []
unfolding sorted_vars postgresql_cluster.Js.put
sorted_test = refl

abbrev sample_response : Props
sample_response = prop "extra_vars" (obj sample_vars) (prop "servers" (arr exported_servers) end)

handle_button_click-downloads_example :
    (text : String) × (handle_button_click sample_tools "pg" (ok (obj sample_response))
      ≡ downloaded "pg-inventory.yaml" text ∷ exported_toast "pg" ∷ menu_closed ∷ [])
unfolding field postgresql_cluster.Export.extra_vars_of
handle_button_click-downloads_example =
    handle_button_click-downloads sample_tools "pg" sample_response sample_vars exported_servers
      refl refl (tt, (tt, tt)) (λ v. tt)
