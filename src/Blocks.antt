-- ===== src/Blocks.antt =====
-- The databases and the extensions of the form: the names of the databases that
-- console/ui/src/entities/cluster/expert-mode/databases-block/ui keeps by the identifier of each,
-- and the selection of databases for an extension that
-- console/ui/src/entities/cluster/expert-mode/extensions-block/ui/ExtensionSelector.tsx keeps.
use postgresql_cluster.Common.{
  zero, ℕ, suc, ◌+◌, String, Bool, not, Option, none, some, List, [], ◌∷◌, if◌then◌else◌, ◌++◌,
}
use postgresql_cluster.Js.{
  Js, undefined, null, bool, num, str, arr, obj, items, from_list, Items, Props, end, prop, field,
  chain, truthy, to_string, put, delete, ◌≔◌, ◌⊕◌,
}
use postgresql_cluster.Js.Text.{◌⧺◌, decimal}
use postgresql_cluster.Fields.Databases
pub mod Dcs
mod Search
mod Laws
mod SearchLaws
mod Tests

-- The list of databases, the names by identifier, and the counter of the block.
pub record DatabasesState : Type 0 where
  pub databases : List Js
  pub names : Props
  pub index : ℕ

-- `appendItem`; `unique_id` is what lodash gave.
unfoldable pub append_item : String → DatabasesState → DatabasesState
append_item unique_id s = record {
  databases =
      s.databases
      ++ (obj (
            Databases.database_name ≔ str ("db" ⧺ decimal s.index)
            ⊕ Databases.user_name ≔ str ("db" ⧺ decimal s.index ⧺ "_user")
            ⊕ Databases.user_password ≔ str ""
            ⊕ Databases.encoding ≔ str "UTF-8"
            ⊕ Databases.locale ≔ str "en_US.UTF-8"
            ⊕ Databases.block_id ≔ str unique_id)
          ∷ []);
  names = s.names;
  index = s.index + 1;
}

-- `remove(index)` of the field array
abbrev pub remove_at : ℕ → List Js → List Js
remove_at n [] = []
remove_at zero (x ∷ xs) = xs
remove_at (suc n) (x ∷ xs) = x ∷ remove_at n xs

-- The effect of `DatabaseBox` on a change of the name: its entry in the names, and its user.
unfoldable pub set_name : Js → Js → Props → Props
unfolding put
set_name id name names = put names (to_string id) name

-- `setValue` of the user of a database
abbrev pub set_user : ℕ → Js → List Js → List Js
set_user n name [] = []
set_user zero name (obj ps ∷ xs) =
    obj (put ps Databases.user_name (str (to_string name ⧺ "_user"))) ∷ xs
set_user zero name (x ∷ xs) = x ∷ xs
set_user (suc n) name (x ∷ xs) = x ∷ set_user n name xs

unfoldable pub rename_database : ℕ → Js → Js → DatabasesState → DatabasesState
unfolding set_name
rename_database n id name s = record {
  databases = set_user n name s.databases;
  names = set_name id name s.names;
  index = s.index;
}

-- `deleteItem`
unfoldable pub delete_item : ℕ → Js → DatabasesState → DatabasesState
unfolding delete
delete_item n id s = record {
  databases = remove_at n s.databases;
  names = delete s.names (to_string id);
  index = s.index;
}

-- `Object.keys(names)`, of names that may be missing
abbrev pub keys : Props → List Js
keys end = []
keys (prop k v ps) = str k ∷ keys ps

abbrev pub selected_databases : Js → List Js
selected_databases (arr xs) = items xs
selected_databases v = []

-- The entry of an extension.
abbrev pub selection : List Js → Js → Js
selection chosen contrib =
    obj ("db" ≔ arr (from_list chosen) ⊕ "isThirdParty" ≔ bool (not (truthy contrib)))

-- `handleChange`
unfoldable pub handle_change : String → Js → List Js → Props → Props
unfolding put
handle_change name contrib chosen extensions = put extensions name (selection chosen contrib)

module _ (intersection : List Js → List Js → List Js) where
  -- The effect of `ExtensionSelector` on a change of the names.
  unfoldable pub sync_extension : String → Js → Props → Props → Props
  unfolding put
  sync_extension name contrib names extensions =
      if truthy (field extensions name)
      then put extensions name (
          selection
            (intersection (selected_databases (chain (field extensions name) "db")) (keys names))
            contrib)
      else extensions
