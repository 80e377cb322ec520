-- ===== src/ExtraVars/ExtensionLaws.antt =====
-- What `getExtensions` makes of the extensions that were chosen.
use text.Mathlib.TextLemmas.{append_cancel_left}
use postgresql_cluster.Common.{
  ◌++◌, map, append-nil, append_assoc, String, Bool, true, false, ◌&&◌, ◌||◌, ◌≡◌, refl, some, none,
  arith, List, [], ◌∷◌, length, ◌==◌, eq_iff, if◌then◌else◌, ap, sym, ◌∙◌,
}
use postgresql_cluster.Js.{
  ◌⊕◌, prop, end, str, to_string, member, member-eq-chain, Js, bool, arr, obj, items, Props, truthy,
  chain, field, entries, lookup, object_laws, Result, ok, bind-eq-ok, traverse, ok-injective,
}
use postgresql_cluster.ExtraVars.Extensions.{
  Chosen, no_extensions, chosen_databases, extension_entry, enable_key, third_party, add_entries,
  add_extension, add_extensions, get_extensions, object_entries, database_name,
}
use postgresql_cluster.Fields.Extensions
use postgresql_cluster.Fields.Databases

-- The databases that an entry of the form's `extensions` names.
abbrev pub databases_of : Js → List Js
databases_of (arr xs) = items xs
databases_of _ = []

abbrev is_nonempty {ℓ} : {A : Type ℓ} → List A → Bool
is_nonempty [] = false
is_nonempty (x ∷ xs) = true

-- Whether an entry enables a third party extension.
abbrev pub enables : Js → Bool
enables value = is_nonempty (databases_of (chain value "db")) && truthy (chain value "isThirdParty")

-- Whether some entry enables the third party extension `k`.
abbrev pub is_enabled : String → List (String × Js) → Bool
is_enabled k [] = false
is_enabled k ((key, value) ∷ rest) = key == k && enables value || is_enabled k rest

-- An entry for an extension and a database, which is named by its key among the names.
abbrev pub pair : Js → String → Js → Js
pair names key item = obj (prop "ext" (str key) (prop "db" (chain names (to_string item)) end))

-- The pairs of an extension and a database that the form's `extensions` name, in their order.
abbrev pub pairs : Js → List (String × Js) → List Js
pairs names [] = []
pairs names ((key, value) ∷ rest) =
    map (pair names key) (databases_of (chain value "db")) ++ pairs names rest

enable_key-injective : (a b : String) → (enable_key a == enable_key b) ≡ (a == b)
enable_key-injective a b =
    ground
      (arith, eq_iff a b, eq_iff (enable_key a) (enable_key b), append_cancel_left "enable_" a b)

traverse-length :
    (f : Js → Result Js) (xs ys : List Js) → traverse f xs ≡ ok ys → length ys ≡ length xs
unfolding traverse
traverse-length f [] ys e = ground arith
traverse-length f (x ∷ xs) ys e =
    let (y, _, e1) = bind-eq-ok (f x) _ e in
    let (zs, same, e2) = bind-eq-ok (traverse f xs) _ e1 in
    ground (arith, traverse-length f xs zs same)

is_nonempty-length {ℓ} :
    {A : Type ℓ} (xs ys : List A) → length xs ≡ length ys → is_nonempty xs ≡ is_nonempty ys
is_nonempty-length [] [] e = refl
is_nonempty-length [] (y ∷ ys) e = absurd (omega (arith, e))
is_nonempty-length (x ∷ xs) [] e = absurd (omega (arith, e))
is_nonempty-length (x ∷ xs) (y ∷ ys) e = refl

third_party-lookup :
    (vars : Props) (key : String) (b : Bool) (k : String)
    → lookup (third_party vars key b) k
      ≡ (if b && enable_key key == k then some (bool true) else lookup vars k)
unfolding third_party
third_party-lookup vars key false k = refl
third_party-lookup vars key true k = simp object_laws (unfold lookup in (ground arith))

add_entries-lookup :
    (acc : Chosen) (key : String) (value : Js) (found : List Js) (k : String)
    → lookup (add_entries acc key value found).extra_vars k ≡ (
        if (is_nonempty found && truthy (chain value "isThirdParty")) && enable_key key == k
        then some (bool true)
        else lookup acc.extra_vars k)
unfolding add_entries
add_entries-lookup acc key value [] k = refl
add_entries-lookup acc key value (x ∷ xs) k =
    third_party-lookup acc.extra_vars key (truthy (chain value "isThirdParty")) k

add_entries-db :
    (acc : Chosen) (key : String) (value : Js) (found : List Js)
    → (add_entries acc key value found).db ≡ acc.db ++ found
unfolding add_entries
add_entries-db acc key value [] = sym (append-nil acc.db)
add_entries-db acc key value (x ∷ xs) = refl

extension_entry-pair :
    (values : Props) (key : String) (item y : Js)
    → extension_entry values key item ≡ ok y
    → y ≡ pair (field values Databases.names) key item
unfolding extension_entry database_name ◌⊕◌
extension_entry-pair values key item y e =
    let names = field values Databases.names in
    let (db, here, e1) = bind-eq-ok (member names (to_string item)) _ e in
    sym (ok-injective _ y e1)
    ∙ ap (λ (v : Js). obj (prop "ext" (str key) (prop "db" v end)))
        (member-eq-chain names (to_string item) db here)

traverse-pairs :
    (values : Props) (key : String) (xs ys : List Js)
    → traverse (extension_entry values key) xs ≡ ok ys
    → ys ≡ map (pair (field values Databases.names) key) xs
unfolding traverse
traverse-pairs values key [] ys e = sym (ok-injective [] ys e)
traverse-pairs values key (x ∷ xs) ys e =
    let (y, here, e1) = bind-eq-ok (extension_entry values key x) _ e in
    let (zs, later, e2) = bind-eq-ok (traverse (extension_entry values key) xs) _ e1 in
    sym (ok-injective (y ∷ zs) ys e2)
    ∙ ap (λ (v : Js). v ∷ zs) (extension_entry-pair values key x y here)
    ∙ ap (λ vs. pair (field values Databases.names) key x ∷ vs)
        (traverse-pairs values key xs zs later)

chosen_databases-eq : (v : Js) (xs : List Js) → chosen_databases v ≡ ok xs → xs ≡ databases_of v
unfolding chosen_databases
chosen_databases-eq v xs e = ground arith

-- One round.
module _ (values : Props) (acc : Chosen) (key : String) (value : Js) (next : Chosen)
    (e : add_extension values acc key value ≡ ok next) where
  add_extension-extra_vars :
      (k : String)
      → lookup next.extra_vars k ≡ (
          if enables value && enable_key key == k
          then some (bool true)
          else lookup acc.extra_vars k)
  unfolding add_extension lookup
  add_extension-extra_vars k =
      let (chosen, here, e1) = bind-eq-ok (chosen_databases (chain value "db")) _ e in
      let (found, there, e2) = bind-eq-ok (traverse (extension_entry values key) chosen) _ e1 in
      let same = ok-injective _ next e2 in
      let full : is_nonempty found ≡ is_nonempty (databases_of (chain value "db")) =
        is_nonempty-length found _
          (traverse-length _ chosen found there ∙ ap length (chosen_databases-eq _ chosen here)) in
      rw (← same) (rw (← full) (add_entries-lookup acc key value found k))

  add_extension-db :
      next.db
      ≡ acc.db ++ map (pair (field values Databases.names) key) (databases_of (chain value "db"))
  unfolding add_extension
  add_extension-db =
      let names = field values Databases.names in
      let (chosen, here, e1) = bind-eq-ok (chosen_databases (chain value "db")) _ e in
      let (found, there, e2) = bind-eq-ok (traverse (extension_entry values key) chosen) _ e1 in
      ap (λ (c : Chosen). c.db) (sym (ok-injective _ next e2))
      ∙ add_entries-db acc key value found
      ∙ ap (λ xs. acc.db ++ xs)
          (traverse-pairs values key chosen found there
            ∙ ap (map (pair names key)) (chosen_databases-eq (chain value "db") chosen here))

-- The whole loop.
add_extensions-extra_vars :
    (values : Props) (acc : Chosen) (l : List (String × Js)) (c : Chosen) (k : String)
    → add_extensions values acc l ≡ ok c
    → lookup c.extra_vars (enable_key k)
      ≡ (if is_enabled k l then some (bool true) else lookup acc.extra_vars (enable_key k))
unfolding add_extensions
add_extensions-extra_vars values acc [] c k e =
    ap (λ (x : Chosen). lookup x.extra_vars (enable_key k)) (sym (ok-injective acc c e))
add_extensions-extra_vars values acc ((key, value) ∷ rest) c k e =
    let (next, here, later) = bind-eq-ok (add_extension values acc key value) _ e in
    ground (
      arith,
      add_extensions-extra_vars values next rest c k later,
      add_extension-extra_vars values acc key value next here (enable_key k),
      enable_key-injective key k,
    )

add_extensions-db :
    (values : Props) (acc : Chosen) (l : List (String × Js)) (c : Chosen)
    → add_extensions values acc l ≡ ok c
    → c.db ≡ acc.db ++ pairs (field values Databases.names) l
unfolding add_extensions
add_extensions-db values acc [] c e =
    ap (λ (x : Chosen). x.db) (sym (ok-injective acc c e)) ∙ sym (append-nil acc.db)
add_extensions-db values acc ((key, value) ∷ rest) c e =
    let names = field values Databases.names in
    let (next, here, later) = bind-eq-ok (add_extension values acc key value) _ e in
    add_extensions-db values next rest c later
    ∙ ap (λ xs. xs ++ pairs names rest) (add_extension-db values acc key value next here)
    ∙ append_assoc acc.db (map (pair names key) (databases_of (chain value "db")))
        (pairs names rest)

-- No other variable is set.
add_extensions-other :
    (values : Props) (acc : Chosen) (l : List (String × Js)) (c : Chosen) (k : String)
    → ((key : String) → (enable_key key == k) ≡ false)
    → add_extensions values acc l ≡ ok c
    → lookup c.extra_vars k ≡ lookup acc.extra_vars k
unfolding add_extensions
add_extensions-other values acc [] c k h e =
    ap (λ (x : Chosen). lookup x.extra_vars k) (sym (ok-injective acc c e))
add_extensions-other values acc ((key, value) ∷ rest) c k h e =
    let (next, here, later) = bind-eq-ok (add_extension values acc key value) _ e in
    ground (
      arith,
      add_extensions-other values next rest c k h later,
      add_extension-extra_vars values acc key value next here k,
      h key,
    )

-- Where the form holds extensions and `getExtensions` returns, the variable `enable_k` is set
-- exactly if a third party extension `k` was chosen for some database, and the list is, in their
-- order, that of the pairs of an extension and a database that it was chosen for: an object with
-- the extension's name as `ext` and the database's name as `db`.
pub get_extensions_lem :
    (values exts : Props) (c : Chosen)
    → field values Extensions.extensions ≡ obj exts
    → get_extensions values ≡ ok c
    → ((k : String)
        → lookup c.extra_vars (enable_key k)
          ≡ (if is_enabled k (entries exts) then some (bool true) else none))
      × (c.db ≡ pairs (field values Databases.names) (entries exts))
unfolding get_extensions lookup
get_extensions_lem values exts c h e =
    let run : add_extensions values no_extensions (entries exts) ≡ ok c = rw h at e in
    (
      λ k. add_extensions-extra_vars values no_extensions (entries exts) c k run,
      add_extensions-db values no_extensions (entries exts) c run,
    )

-- Whatever the form holds, only variables that enable an extension are set.
pub get_extensions-other :
    (values : Props) (c : Chosen) (k : String)
    → ((key : String) → (enable_key key == k) ≡ false)
    → get_extensions values ≡ ok c
    → lookup c.extra_vars k ≡ none
unfolding get_extensions lookup
get_extensions-other values c k other e =
    let (l, _, run) = bind-eq-ok (object_entries (field values Extensions.extensions)) _ e in
    add_extensions-other values no_extensions l c k other run
