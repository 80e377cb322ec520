-- ===== src/Export/AssignLaws.antt =====
-- What assigning the variables in an order does to them.
use postgresql_cluster.Common.{
  ℕ, leb, Option, or_else, sym, String, Bool, true, false, ◌==◌, ◌≡◌, ◌⊎◌, refl, arith, eq_iff,
  none, some, All, List, [], ◌∷◌, ◌++◌, Bool-cases, inl, inr, if◌then◌else◌, ◌∙◌, ap,
}
use postgresql_cluster.Js.{Js, Props, end, prop, field, lookup, put, lookup-put}
use postgresql_cluster.Export.Vars.{
  Ordered, is_index, index_le, put_index, assign, joined, enumerated, keys_of, insert_key,
  sort_keys, assigned, sorted_vars,
}

-- The order of texts, total and transitive.
pub record IsOrder (le : String → String → Bool) : Type 0 where
  pub total : (a b : String) → (le a b ≡ true) ⊎ (le b a ≡ true)
  pub trans : (a b c : String) → le a b ≡ true → le b c ≡ true → le a c ≡ true

abbrev pub IsSorted : (String → String → Bool) → List String → Type 0
IsSorted le [] = Unit
IsSorted le (k ∷ ks) = All (λ j. le k j ≡ true) ks × IsSorted le ks

pub has_key : String → List String → Bool
has_key k [] = false
has_key k (j ∷ js) = let rest = has_key k js in if j == k then true else rest

has_key-insert :
    (le : String → String → Bool) (k j : String) (ks : List String)
    → has_key j (insert_key le k ks) ≡ (if k == j then true else has_key j ks)
unfolding has_key insert_key
has_key-insert le k j [] = refl
has_key-insert le k j (i ∷ is) = ground (arith, has_key-insert le k j is)

has_key-sort :
    (le : String → String → Bool) (j : String) (ks : List String)
    → has_key j (sort_keys le ks) ≡ has_key j ks
unfolding has_key sort_keys
has_key-sort le j [] = refl
has_key-sort le j (k ∷ ks) =
    has_key-insert le k j (sort_keys le ks)
    ∙ ap (λ b. if k == j then true else b) (has_key-sort le j ks)

pub leb_total : (m n : ℕ) → (leb m n ≡ true) ⊎ (leb n m ≡ true)
leb_total m n = elim (Bool-cases (leb m n)) [ inl h ↦ inl h | inr h ↦ inr (ground arith) ]

pub leb_trans : (m n o : ℕ) → leb m n ≡ true → leb n o ≡ true → leb m o ≡ true
leb_trans m n o h k = ground arith

if-or_else :
    (b : Bool) (v : Js) (o p : Option Js)
    → or_else (if b then some v else o) p ≡ (if b then some v else or_else o p)
if-or_else true v o p = refl
if-or_else false v o p = refl

lookup-has_key : (ps : Props) (k : String) → has_key k (keys_of ps) ≡ false → lookup ps k ≡ none
unfolding has_key lookup
lookup-has_key end k h = refl
lookup-has_key (prop j v ps) k h = ground (arith, lookup-has_key ps k)

lookup-field :
    (ps : Props) (k : String) → has_key k (keys_of ps) ≡ true → some (field ps k) ≡ lookup ps k
unfolding has_key lookup field
lookup-field end k h = cc
lookup-field (prop j v ps) k h = ground (arith, lookup-field ps k)

-- Among properties that are all named by array indices there is none under another name.
index-has_key :
    (ks : List String) (k : String)
    → All (λ j. is_index j ≡ true) ks
    → is_index k ≡ false
    → has_key k ks ≡ false
unfolding has_key
index-has_key [] k h other = refl
index-has_key (j ∷ js) k (here, later) other = elim (Bool-cases (j == k)) [
  | inl same ↦ let key : is_index j ≡ is_index k = ap is_index ((eq_iff j k).0 same) in cc
  | inr apart ↦ rw apart (index-has_key js k later other)
]

joined-lookup :
    (a b : Props) (k : String) → lookup (joined a b) k ≡ or_else (lookup a k) (lookup b k)
unfolding lookup
joined-lookup end b k = refl
joined-lookup (prop j v a) b k = ground (arith, joined-lookup a b k)

put_index-lookup :
    (ps : Props) (k : String) (v : Js) (j : String)
    → lookup (put_index ps k v) j ≡ (if k == j then some v else lookup ps j)
unfolding lookup put_index
put_index-lookup end k v j = refl
put_index-lookup (prop i w ps) k v j =
    ground (arith, eq_iff k j, eq_iff i k, eq_iff i j, put_index-lookup ps k v j)

-- The first properties are named by array indices.
abbrev HasIndices : Ordered → Type 0
HasIndices o = All (λ k. is_index k ≡ true) (keys_of o.indices)

assign-lookup :
    (acc : Ordered) (k : String) (v : Js) (j : String)
    → HasIndices acc
    → lookup (enumerated (assign acc k v)) j
      ≡ (if k == j then some v else lookup (enumerated acc) j)
unfolding assign
assign-lookup acc k v j own = elim (Bool-cases (is_index k)) [
  | inl index ↦
      rw (index, joined-lookup (put_index acc.indices k v) acc.names j)
        (rw (joined-lookup acc.indices acc.names j, put_index-lookup acc.indices k v j)
          (if-or_else (k == j) v (lookup acc.indices j) (lookup acc.names j)))
  | inr name ↦
      let free = lookup-has_key acc.indices k (index-has_key (keys_of acc.indices) k own name) in
      rw (name, joined-lookup acc.indices (put acc.names k v) j)
        (rw (joined-lookup acc.indices acc.names j, lookup-put acc.names k v j)
          (elim (Bool-cases (k == j)) [
            | inl same ↦
                let there : lookup acc.indices j ≡ none =
                  ap (lookup acc.indices) (sym ((eq_iff k j).0 same)) ∙ free in
                rw (same, there) refl
            | inr apart ↦ rw apart refl
          ]))
]

pub put_index-All :
    (P : String → Type 0) (ps : Props) (k : String) (v : Js)
    → P k
    → All P (keys_of ps)
    → All P (keys_of (put_index ps k v))
unfolding put_index
put_index-All P end k v h hs = (h, tt)
put_index-All P (prop j w ps) k v h (p, rest) = elim (Bool-cases (j == k)) [
  | inl same ↦ rw same (p, rest)
  | inr apart ↦ elim (Bool-cases (index_le j k)) [
    | inl before ↦ rw (apart, before) (p, put_index-All P ps k v h rest)
    | inr after ↦ rw (apart, after) (h, (p, rest))
  ]
]

assign-HasIndices :
    (acc : Ordered) (k : String) (v : Js) → HasIndices acc → HasIndices (assign acc k v)
unfolding assign
assign-HasIndices acc k v own = elim (Bool-cases (is_index k)) [
  | inl index ↦ rw index (put_index-All (λ j. is_index j ≡ true) acc.indices k v index own)
  | inr name ↦ rw name own
]

pub assigned-HasIndices :
    (ps : Props) (acc : Ordered) (ks : List String)
    → HasIndices acc
    → HasIndices (assigned ps acc ks)
unfolding assigned
assigned-HasIndices ps acc [] own = own
assigned-HasIndices ps acc (k ∷ ks) own =
    assigned-HasIndices ps (assign acc k (field ps k)) ks (assign-HasIndices acc k (field ps k) own)

assigned-lookup :
    (ps : Props) (acc : Ordered) (ks : List String) (k : String)
    → HasIndices acc
    → lookup (enumerated (assigned ps acc ks)) k
      ≡ (if has_key k ks then some (field ps k) else lookup (enumerated acc) k)
unfolding assigned has_key
assigned-lookup ps acc [] k own = refl
assigned-lookup ps acc (j ∷ js) k own = ground (
  arith,
  eq_iff j k,
  assigned-lookup ps (assign acc j (field ps j)) js k (assign-HasIndices acc j (field ps j) own),
  assign-lookup acc j (field ps j) k own,
)

abbrev pub empty_object : Ordered
empty_object = record { indices = end; names = end }

pub sorted_vars-lookup :
    (le : String → String → Bool) (ps : Props) (k : String)
    → lookup (sorted_vars le ps) k ≡ lookup ps k
unfolding sorted_vars lookup
sorted_vars-lookup le ps k = ground (
  arith,
  assigned-lookup ps empty_object (sort_keys le (keys_of ps)) k tt,
  has_key-sort le k (keys_of ps),
  lookup-has_key ps k,
  lookup-field ps k,
)

pub keys_of-put :
    (ps : Props) (k : String) (v : Js)
    → keys_of (put ps k v) ≡ (if has_key k (keys_of ps) then keys_of ps else keys_of ps ++ k ∷ [])
unfolding put has_key
keys_of-put end k v = refl
keys_of-put (prop j w ps) k v = ground (arith, keys_of-put ps k v)
