-- ===== src/Export/VarLaws.antt =====
-- The order in which the exported variables are enumerated.
use postgresql_cluster.Common.{
  append-nil, append_assoc, String, Bool, true, false, ◌==◌, ◌≡◌, refl, All, List, [], ◌∷◌, ◌++◌,
  Bool-cases, inl, inr, ap,
}
use postgresql_cluster.Js.{Js, Props, end, prop, field, lookup, put}
use postgresql_cluster.Export.Vars.{
  Ordered, is_index, index_le, put_index, assign, joined, keys_of, insert_key, sort_keys, assigned,
  sorted_vars,
}
use postgresql_cluster.Export.AssignLaws.{
  IsSorted, has_key, keys_of-put, leb_total, leb_trans, put_index-All, assigned-HasIndices,
  empty_object, sorted_vars-lookup, IsOrder,
}

module _ (le : String → String → Bool) where
  All-insert :
      (P : String → Type 0) (k : String) (ks : List String)
      → P k
      → All P ks
      → All P (insert_key le k ks)
  unfolding insert_key
  All-insert P k [] h hs = (h, tt)
  All-insert P k (j ∷ js) h (p, ps) = elim (Bool-cases (le k j)) [
    | inl before ↦ rw before (h, (p, ps))
    | inr after ↦ rw after (p, All-insert P k js h ps)
  ]

  All-le :
      (k j : String) (ks : List String)
      → IsOrder le
      → le k j ≡ true
      → All (λ i. le j i ≡ true) ks
      → All (λ i. le k i ≡ true) ks
  All-le k j [] order h hs = tt
  All-le k j (i ∷ is) order h (p, ps) = (order.trans k j i h p, All-le k j is order h ps)

  insert_key-IsSorted :
      (k : String) (ks : List String)
      → IsOrder le
      → IsSorted le ks
      → IsSorted le (insert_key le k ks)
  unfolding insert_key
  insert_key-IsSorted k [] order s = (tt, tt)
  insert_key-IsSorted k (j ∷ js) order (below, s) = elim (Bool-cases (le k j)) [
    | inl before ↦ rw before ((before, All-le k j js order before below), (below, s))
    | inr after ↦
        let other : le j k ≡ true = elim (order.total k j) [ inl yes_before ↦ cc | inr h ↦ h ] in
        rw after
          (All-insert (λ i. le j i ≡ true) k js other below, insert_key-IsSorted k js order s)
  ]

  sort_keys-IsSorted : (ks : List String) → IsOrder le → IsSorted le (sort_keys le ks)
  unfolding sort_keys
  sort_keys-IsSorted [] order = tt
  sort_keys-IsSorted (k ∷ ks) order =
      insert_key-IsSorted k (sort_keys le ks) order (sort_keys-IsSorted ks order)

  All-drop :
      (P : String → Type 0) (xs ks : List String) (k : String)
      → All P (xs ++ k ∷ ks)
      → All P (xs ++ ks)
  All-drop P [] ks k (h, hs) = hs
  All-drop P (x ∷ xs) ks k (h, hs) = (h, All-drop P xs ks k hs)

  IsSorted-drop :
      (xs ks : List String) (k : String) → IsSorted le (xs ++ k ∷ ks) → IsSorted le (xs ++ ks)
  IsSorted-drop [] ks k (below, s) = s
  IsSorted-drop (x ∷ xs) ks k (below, s) =
      (All-drop (λ j. le x j ≡ true) xs ks k below, IsSorted-drop xs ks k s)

  assign-IsSorted :
      (acc : Ordered) (k : String) (v : Js) (ks : List String)
      → IsSorted le (keys_of acc.names ++ k ∷ ks)
      → IsSorted le (keys_of (assign acc k v).names ++ ks)
  unfolding assign
  assign-IsSorted acc k v ks s = elim (Bool-cases (is_index k)) [
    | inl index ↦ rw index (IsSorted-drop (keys_of acc.names) ks k s)
    | inr name ↦ rw name (
        rw (keys_of-put acc.names k v) (elim (Bool-cases (has_key k (keys_of acc.names))) [
          | inl old ↦ rw old (IsSorted-drop (keys_of acc.names) ks k s)
          | inr new ↦ rw new (rw (append_assoc (keys_of acc.names) (k ∷ []) ks) s)
        ]))
  ]

  assigned-IsSorted :
      (ps : Props) (acc : Ordered) (ks : List String)
      → IsSorted le (keys_of acc.names ++ ks)
      → IsSorted le (keys_of (assigned ps acc ks).names)
  unfolding assigned
  assigned-IsSorted ps acc [] s = rw (append-nil (keys_of acc.names)) at s
  assigned-IsSorted ps acc (k ∷ ks) s =
      assigned-IsSorted ps (assign acc k (field ps k)) ks (assign-IsSorted acc k (field ps k) ks s)

-- The array indices stay in the order of their numbers.
index_le-IsOrder : IsOrder index_le
unfolding index_le
index_le-IsOrder = record { total = λ a b. leb_total _ _; trans = λ a b c h k. leb_trans _ _ _ h k }

put_index-IsSorted :
    (ps : Props) (k : String) (v : Js)
    → IsSorted index_le (keys_of ps)
    → IsSorted index_le (keys_of (put_index ps k v))
unfolding put_index
put_index-IsSorted end k v s = (tt, tt)
put_index-IsSorted (prop j w ps) k v (below, s) = elim (Bool-cases (j == k)) [
  | inl same ↦ rw same (below, s)
  | inr apart ↦ elim (Bool-cases (index_le j k)) [
    | inl before ↦
        rw (apart, before)
          (
            put_index-All (λ i. index_le j i ≡ true) ps k v before below,
            put_index-IsSorted ps k v s,
          )
    | inr after ↦
        let other : index_le k j ≡ true = elim (index_le-IsOrder.total j k) [
          | inl h ↦ cc
          | inr h ↦ h
        ] in
        rw (apart, after)
          ((other, All-le index_le k j (keys_of ps) index_le-IsOrder other below), (below, s))
  ]
]

assign-ascending :
    (acc : Ordered) (k : String) (v : Js)
    → IsSorted index_le (keys_of acc.indices)
    → IsSorted index_le (keys_of (assign acc k v).indices)
unfolding assign
assign-ascending acc k v s = elim (Bool-cases (is_index k)) [
  | inl index ↦ rw index (put_index-IsSorted acc.indices k v s)
  | inr name ↦ rw name s
]

assigned-ascending :
    (ps : Props) (acc : Ordered) (ks : List String)
    → IsSorted index_le (keys_of acc.indices)
    → IsSorted index_le (keys_of (assigned ps acc ks).indices)
unfolding assigned
assigned-ascending ps acc [] s = s
assigned-ascending ps acc (k ∷ ks) s =
    assigned-ascending ps (assign acc k (field ps k)) ks (assign-ascending acc k (field ps k) s)

-- The other properties are not named by array indices.
abbrev HasNames : Ordered → Type 0
HasNames o = All (λ k. is_index k ≡ false) (keys_of o.names)

put-All :
    (P : String → Type 0) (ps : Props) (k : String) (v : Js)
    → P k
    → All P (keys_of ps)
    → All P (keys_of (put ps k v))
unfolding put
put-All P end k v h hs = (h, tt)
put-All P (prop j w ps) k v h (p, rest) = elim (Bool-cases (j == k)) [
  | inl same ↦ rw same (p, rest)
  | inr apart ↦ rw apart (p, put-All P ps k v h rest)
]

assign-HasNames : (acc : Ordered) (k : String) (v : Js) → HasNames acc → HasNames (assign acc k v)
unfolding assign
assign-HasNames acc k v own = elim (Bool-cases (is_index k)) [
  | inl index ↦ rw index own
  | inr name ↦ rw name (put-All (λ j. is_index j ≡ false) acc.names k v name own)
]

assigned-HasNames :
    (ps : Props) (acc : Ordered) (ks : List String) → HasNames acc → HasNames (assigned ps acc ks)
unfolding assigned
assigned-HasNames ps acc [] own = own
assigned-HasNames ps acc (k ∷ ks) own =
    assigned-HasNames ps (assign acc k (field ps k)) ks (assign-HasNames acc k (field ps k) own)

keys_of-joined : (a b : Props) → keys_of (joined a b) ≡ keys_of a ++ keys_of b
keys_of-joined end b = refl
keys_of-joined (prop k v a) b = ap (λ ks. k ∷ ks) (keys_of-joined a b)

-- The names of the exported variables: first those that are array indices, in the order of their
-- numbers, and then the others in the order of texts.
pub record IsEnumerated (le : String → String → Bool) (ks : List String) : Type 0 where
  pub indices : List String
  pub names : List String
  pub parts : ks ≡ indices ++ names
  pub all_indices : All (λ k. is_index k ≡ true) indices
  pub ascending : IsSorted index_le indices
  pub no_indices : All (λ k. is_index k ≡ false) names
  pub sorted : IsSorted le names

-- The exported variables are enumerated in the order of their names as texts, except that names
-- that are array indices come first, in the order of their numbers. The variables are those of the
-- cluster: each name has the value that it had, and no name is added or lost.
pub sorted_vars-IsSorted :
    (le : String → String → Bool) (ps : Props)
    → IsOrder le
    → IsEnumerated le (keys_of (sorted_vars le ps))
      × ((k : String) → lookup (sorted_vars le ps) k ≡ lookup ps k)
unfolding sorted_vars
sorted_vars-IsSorted le ps order =
    let keys = sort_keys le (keys_of ps) in
    let all = assigned ps empty_object keys in
    (
      record {
        indices = keys_of all.indices;
        names = keys_of all.names;
        parts = keys_of-joined all.indices all.names;
        all_indices = assigned-HasIndices ps empty_object keys tt;
        ascending = assigned-ascending ps empty_object keys tt;
        no_indices = assigned-HasNames ps empty_object keys tt;
        sorted =
            assigned-IsSorted le ps empty_object keys (sort_keys-IsSorted le (keys_of ps) order);
      },
      sorted_vars-lookup le ps,
    )
