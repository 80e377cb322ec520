-- ===== src/Blocks/Laws.antt =====
-- What the selection of databases for an extension refers to.
use postgresql_cluster.Common.{
  ℕ, subst, String, true, ◌≡◌, refl, ap, ◌∙◌, inl, inr, List, none, eq_iff, eq_refl, arith, ◌≢◌,
}
use postgresql_cluster.Js.{
  HasItem, items-from_list, Js, str, Props, end, prop, field, chain, lookup, lookup-put, put,
  truthy, to_string, lookup-delete, ◌⊕◌,
}
use postgresql_cluster.Blocks.{
  DatabasesState, keys, selected_databases, selection, sync_extension, delete_item, ℕ,
}

-- The documented behaviour of `intersection` of lodash: what it gives is in both.
pub record IsIntersection (intersection : List Js → List Js → List Js) : Type 0 where
  pub in_first : (x : Js) (a b : List Js) → HasItem x (intersection a b) → HasItem x a
  pub in_second : (x : Js) (a b : List Js) → HasItem x (intersection a b) → HasItem x b

-- The databases that are selected for an extension.
abbrev pub chosen_of : String → Props → List Js
chosen_of name extensions = selected_databases (chain (field extensions name) "db")

abbrev text_in : Js → String
text_in (str k) = k
text_in v = ""

keys-lookup : (names : Props) (k : String) → HasItem (str k) (keys names) → lookup names k ≢ none
unfolding lookup
keys-lookup end k h = absurd h
keys-lookup (prop j v ps) k (inl same) = ground (arith, ap text_in same, eq_iff j k)
keys-lookup (prop j v ps) k (inr there) = ground (arith, keys-lookup ps k there)

put-field : (ps : Props) (k : String) (v : Js) → field (put ps k v) k ≡ v
unfolding field
put-field ps k v = rw (lookup-put ps k v k) (rw (eq_refl k) refl)

selection-chosen :
    (chosen : List Js) (contrib : Js)
    → selected_databases (chain (selection chosen contrib) "db") ≡ chosen
unfolding field lookup ◌⊕◌
selection-chosen chosen contrib = items-from_list chosen

sync_extension-chosen :
    (intersection : List Js → List Js → List Js) (name : String) (contrib : Js)
    (names extensions : Props)
    → truthy (field extensions name) ≡ true
    → chosen_of name (sync_extension intersection name contrib names extensions)
      ≡ intersection (chosen_of name extensions) (keys names)
unfolding sync_extension
sync_extension-chosen intersection name contrib names extensions there =
    let next = selection (intersection (chosen_of name extensions) (keys names)) contrib in
    rw there (
      ap (λ (v : Js). selected_databases (chain v "db")) (put-field extensions name next)
      ∙ selection-chosen (intersection (chosen_of name extensions) (keys names)) contrib)

-- After the effect, each database that is selected for the extension has a name, and was selected
-- before.
pub sync_extension-named :
    (intersection : List Js → List Js → List Js) (name : String) (contrib : Js)
    (names extensions : Props) (k : String)
    → IsIntersection intersection
    → truthy (field extensions name) ≡ true
    → HasItem (str k) (chosen_of name (sync_extension intersection name contrib names extensions))
    → (lookup names k ≢ none) × HasItem (str k) (chosen_of name extensions)
sync_extension-named intersection name contrib names extensions k laws there has =
    let h =
      subst (HasItem (str k))
        (sync_extension-chosen intersection name contrib names extensions there) has in
    (
      keys-lookup names k (laws.in_second (str k) (chosen_of name extensions) (keys names) h),
      laws.in_first (str k) (chosen_of name extensions) (keys names) h,
    )

-- After a database is deleted and the effect has run, the database is selected for the extension
-- no more.
pub deleted-unselected :
    (intersection : List Js → List Js → List Js) (name : String) (contrib : Js) (n : ℕ)
    (id : String) (s : DatabasesState) (extensions : Props)
    → IsIntersection intersection
    → truthy (field extensions name) ≡ true
    → ¬ HasItem (str id) (
        chosen_of name
          (sync_extension intersection name contrib (delete_item n (str id) s).names extensions))
unfolding delete_item to_string
deleted-unselected intersection name contrib n id s extensions laws there has =
    let named =
      sync_extension-named intersection name contrib (delete_item n (str id) s).names extensions id
        laws there has in
    named.0 (rw (lookup-delete s.names id id) (rw (eq_refl id) refl))
