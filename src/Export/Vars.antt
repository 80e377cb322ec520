-- ===== src/Export/Vars.antt =====
-- The variables of the cluster, and their order by name.
use postgresql_cluster.Common.{
  Option, none, some, true, false, ◌&&◌, leb, ltb, ℕ, suc, String, Bool, ◌==◌, List, [], ◌∷◌,
  if◌then◌else◌,
}
use postgresql_cluster.Js.{
  Js, undefined, null, num, to_number, str, arr, obj, Items, nil, cons, Props, end, prop, field,
  put, Result, ok, thrown,
}
use postgresql_cluster.Js.Text.{decimal, trim}

-- `JSON.parse`, `yaml.dump` with the options of the button, and whether a text does not come
-- after another, as `localeCompare` orders them.
pub record Tools : Type 0 where
  pub parse : String → Result Js
  pub dump : Js → Result String
  pub le : String → String → Bool

-- `vars = JSON.parse(...)`, with `{}` if that throws.
abbrev pub parsed_or_empty : Result Js → Js
parsed_or_empty (ok v) = v
parsed_or_empty thrown = obj end

-- `vars`, from `response.extra_vars`.
unfoldable pub extra_vars_of : Tools → Js → Js
unfolding trim
extra_vars_of tools (str s) = if trim s == "" then obj end else parsed_or_empty (tools.parse s)
extra_vars_of tools (arr xs) = arr xs
extra_vars_of tools (obj ps) = obj ps
extra_vars_of tools v = obj end

indexed : ℕ → Items → Props
unfolding decimal
indexed n nil = end
indexed n (cons x xs) = prop (decimal n) x (indexed (suc n) xs)

characters : ℕ → String → Props
unfolding decimal
characters n String.[] = end
characters n (String.◌∷◌ c s) = prop (decimal n) (str (String.◌∷◌ c "")) (characters (suc n) s)

-- The properties that `Object.keys` gives the names of; it throws if there is no object.
unfoldable pub own_props : Js → Result Props
unfolding indexed characters
own_props undefined = thrown
own_props null = thrown
own_props (obj ps) = ok ps
own_props (arr xs) = ok (indexed 0 xs)
own_props (str s) = ok (characters 0 s)
own_props v = ok end

-- `Object.keys(o)`
abbrev pub keys_of : Props → List String
keys_of end = []
keys_of (prop k v ps) = k ∷ keys_of ps

unfoldable pub insert_key : (String → String → Bool) → String → List String → List String
insert_key le k [] = k ∷ []
insert_key le k (j ∷ js) = let rest = insert_key le k js in if le k j then k ∷ j ∷ js else j ∷ rest

-- `.sort((a, b) => a.localeCompare(b))`
unfoldable pub sort_keys : (String → String → Bool) → List String → List String
unfolding insert_key
sort_keys le [] = []
sort_keys le (k ∷ ks) = insert_key le k (sort_keys le ks)

abbrev canonical : String → Js → Option ℕ
canonical k (num n) = if decimal n == k && ltb n 4294967295 then some n else none
canonical k v = none

-- The number that a key is an array index for.
unfoldable pub index_of : String → Option ℕ
unfolding to_number decimal
index_of k = canonical k (to_number (str k))

unfoldable pub is_index : String → Bool
unfolding index_of
is_index k = elim (index_of k) [ none ↦ false | some n ↦ true ]

abbrev number_or : Option ℕ → ℕ
number_or none = 0
number_or (some n) = n

-- Whether an array index does not come after another.
unfoldable pub index_le : String → String → Bool
unfolding index_of
index_le j k = leb (number_or (index_of j)) (number_or (index_of k))

-- An object, of which the properties named by array indices are enumerated first.
pub record Ordered : Type 0 where
  pub indices : Props
  pub names : Props

-- A property named by an array index, which takes its place among those in the order of numbers.
unfoldable pub put_index : Props → String → Js → Props
unfolding index_le
put_index end k v = prop k v end
put_index (prop j w ps) k v =
    let rest = put_index ps k v in
    if j == k then prop j v ps else if index_le j k then prop j w rest else prop k v (prop j w ps)

-- `acc[key] = v`
unfoldable pub assign : Ordered → String → Js → Ordered
unfolding is_index put_index
assign acc k v =
    if is_index k
    then record { indices = put_index acc.indices k v; names = acc.names }
    else record { indices = acc.indices; names = put acc.names k v }

-- The `reduce` that assigns each variable under its name.
unfoldable pub assigned : Props → Ordered → List String → Ordered
unfolding assign
assigned ps acc [] = acc
assigned ps acc (k ∷ ks) = assigned ps (assign acc k (field ps k)) ks

abbrev pub joined : Props → Props → Props
joined end b = b
joined (prop k v a) b = prop k v (joined a b)

-- All properties, in the order in which they are enumerated.
abbrev pub enumerated : Ordered → Props
enumerated o = joined o.indices o.names

unfoldable pub sorted_vars : (String → String → Bool) → Props → Props
unfolding sort_keys assigned
sorted_vars le ps =
    enumerated (assigned ps (record { indices = end; names = end }) (sort_keys le (keys_of ps)))
