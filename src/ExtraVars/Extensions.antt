-- ===== src/ExtraVars/Extensions.antt =====
-- `getExtensions`: the extensions that were chosen, and the databases that each is chosen for.
use postgresql_cluster.Common.{String, Bool, true, ◌==◌, List, [], ◌∷◌, ◌++◌, if◌then◌else◌}
use postgresql_cluster.Js.{
  Js, undefined, null, bool, str, arr, obj, items, Props, end, truthy, field, chain, entries,
  member, ◌≔◌, ◌⊕◌, Result, ok, thrown, ◌>>=◌, traverse, to_string,
}
use postgresql_cluster.Js.Text.{◌⧺◌}
use postgresql_cluster.Fields.Extensions
use postgresql_cluster.Fields.Databases

-- The accumulator of the `reduce`.
pub record Chosen : Type 0 where
  pub db : List Js
  pub extra_vars : Props

abbrev pub no_extensions : Chosen
no_extensions = record { db = []; extra_vars = end }

-- The items over which `value.db.map` runs where `value?.db?.length` is not 0; a text has a
-- length and no `map`.
unfoldable pub chosen_databases : Js → Result (List Js)
chosen_databases (arr xs) = ok (items xs)
chosen_databases (str s) = if s == "" then ok [] else thrown
chosen_databases _ = ok []

-- `values[NAMES][item]`
unfoldable pub database_name : Props → Js → Result Js
unfolding to_string
database_name values item = member (field values Databases.names) (to_string item)

unfoldable pub extension_entry : Props → String → Js → Result Js
unfolding database_name
extension_entry values key item = do
  db ← database_name values item
  ok (obj ("ext" ≔ str key ⊕ "db" ≔ db))

abbrev pub enable_key : String → String
enable_key key = "enable_" ⧺ key

unfoldable pub third_party : Props → String → Bool → Props
third_party vars key b = if b then vars ⊕ (enable_key key ≔ bool true) else vars

unfoldable pub add_entries : Chosen → String → Js → List Js → Chosen
unfolding third_party
add_entries acc key value [] = acc
add_entries acc key value found = record {
  db = acc.db ++ found;
  extra_vars = third_party acc.extra_vars key (truthy (chain value "isThirdParty"));
}

-- One round of the `reduce`.
unfoldable pub add_extension : Props → Chosen → String → Js → Result Chosen
unfolding chosen_databases extension_entry add_entries
add_extension values acc key value = do
  chosen ← chosen_databases (chain value "db")
  found ← traverse (extension_entry values key) chosen
  ok (add_entries acc key value found)

unfoldable pub add_extensions : Props → Chosen → List (String × Js) → Result Chosen
unfolding add_extension
add_extensions values acc [] = ok acc
add_extensions values acc ((key, value) ∷ rest) = do
  next ← add_extension values acc key value
  add_extensions values next rest

-- `Object.entries(v)`: nothing but an object has entries in a form.
abbrev pub object_entries : Js → Result (List (String × Js))
object_entries undefined = thrown
object_entries null = thrown
object_entries (obj ps) = ok (entries ps)
object_entries _ = ok []

unfoldable pub get_extensions : Props → Result Chosen
unfolding add_extensions
get_extensions values = do
  chosen ← object_entries (field values Extensions.extensions)
  add_extensions values no_extensions chosen
