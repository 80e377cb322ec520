-- ===== src/Blocks/Tests.antt =====
-- Runs of the blocks.
use postgresql_cluster.Common.{
  ◌↔◌, if◌then◌else◌, some, ap, sym, subst, eq_iff, ◌==◌, ◌||◌, Bool-cases, String, Bool, true,
  false, ◌≡◌, ◌≢◌, refl, inl, inr, List, [], ◌∷◌, none, Bool-cases, ◌==◌, ◌||◌, subst, sym,
}
use postgresql_cluster.Js.{
  HasItem, undefined, null, nan, Js, bool, num, str, obj, arr, cons, nil, Props, end, prop, lookup,
  field,
}
use postgresql_cluster.Blocks.{DatabasesState, sync_extension}
use postgresql_cluster.Blocks.Search.{
  shown_extensions, SearchState, switched, search_step, is_dependency,
}
use postgresql_cluster.Blocks.SearchLaws.{IsListed, choose_all, search_step-shown}
use postgresql_cluster.Blocks.Laws.{IsIntersection, chosen_of, sync_extension-named}

-- The items of the first list that are texts of the second.
abbrev is_text : Js → Js → Bool
is_text (str s) (str t) = s == t
is_text x y = false

abbrev is_in : Js → List Js → Bool
is_in x [] = false
is_in x (y ∷ ys) = is_text x y || is_in x ys

abbrev sample_intersection : List Js → List Js → List Js
sample_intersection [] b = []
sample_intersection (x ∷ xs) b =
    let rest = sample_intersection xs b in if is_in x b then x ∷ rest else rest

text_eq : (s : String) (y : Js) → is_text (str s) y ≡ true → str s ≡ y
text_eq s (str t) h = ap str ((eq_iff s t).0 h)
text_eq s undefined h = cc
text_eq s null h = cc
text_eq s nan h = cc
text_eq s (bool b) h = cc
text_eq s (num n) h = cc
text_eq s (arr xs) h = cc
text_eq s (obj ps) h = cc

is_text-eq : (x y : Js) → is_text x y ≡ true → x ≡ y
is_text-eq (str s) y h = text_eq s y h
is_text-eq undefined y h = cc
is_text-eq null y h = cc
is_text-eq nan y h = cc
is_text-eq (bool b) y h = cc
is_text-eq (num n) y h = cc
is_text-eq (arr xs) y h = cc
is_text-eq (obj ps) y h = cc

is_in-HasItem : (x : Js) (l : List Js) → is_in x l ≡ true → HasItem x l
is_in-HasItem x [] h = cc
is_in-HasItem x (y ∷ ys) h = elim (Bool-cases (is_text x y)) [
  | inl same ↦ inl (is_text-eq x y same)
  | inr other ↦ inr (is_in-HasItem x ys (rw other at h))
]

sample_intersection-first :
    (x : Js) (a b : List Js) → HasItem x (sample_intersection a b) → HasItem x a
sample_intersection-first x [] b h = h
sample_intersection-first x (y ∷ ys) b h = elim (Bool-cases (is_in y b)) [
  | inl shared ↦ elim (rw shared at h) [
    | inl same ↦ inl same
    | inr later ↦ inr (sample_intersection-first x ys b later)
  ]
  | inr alone ↦ inr (sample_intersection-first x ys b (rw alone at h))
]

sample_intersection-second :
    (x : Js) (a b : List Js) → HasItem x (sample_intersection a b) → HasItem x b
sample_intersection-second x [] b h = absurd h
sample_intersection-second x (y ∷ ys) b h = elim (Bool-cases (is_in y b)) [
  | inl shared ↦ elim (rw shared at h) [
    | inl same ↦ subst (λ (v : Js). HasItem v b) (sym same) (is_in-HasItem y b shared)
    | inr later ↦ sample_intersection-second x ys b later
  ]
  | inr alone ↦ sample_intersection-second x ys b (rw alone at h)
]

sample-IsIntersection : IsIntersection sample_intersection
sample-IsIntersection = record {
  in_first = sample_intersection-first;
  in_second = sample_intersection-second;
}

-- Two databases, of which both are selected for an extension.
abbrev sample_state : DatabasesState
sample_state = record {
  databases = obj end ∷ obj end ∷ [];
  names = prop "1" (str "app") (prop "2" (str "logs") end);
  index = 3;
}

abbrev sample_extensions : Props
sample_extensions =
    prop "postgis" (obj (prop "db" (arr (cons (str "1") (cons (str "2") nil))) end)) end

sync_extension-named_example :
    (lookup sample_state.names "1" ≢ none)
    × HasItem (str "1") (chosen_of "postgis" sample_extensions)
unfolding sync_extension field postgresql_cluster.Js.◌⊕◌
sync_extension-named_example =
    sync_extension-named sample_intersection "postgis" (bool false) sample_state.names
      sample_extensions "1" sample-IsIntersection refl (inl refl)

abbrev enabled_extensions : Js
enabled_extensions = obj (prop "pgvector" (obj (prop "db" (arr (cons (str "1") nil)) end)) end)

abbrev extension : String → Js
extension name = obj (prop "name" (str name) end)

-- The switch is turned on, and then no extension is enabled any more.
abbrev searching : SearchState
searching = record {
  search = "vec";
  only_enabled = false;
  enabled = enabled_extensions;
  answer = some (extension "postgis" ∷ extension "pgvector" ∷ []);
  shown = [];
}

search_step-shown_example :
    HasItem
      (extension "pgvector")
      (choose_all (obj end ∷ []) (search_step (switched true) searching)).shown
    ↔ IsListed true "vec" enabled_extensions
        (extension "postgis" ∷ extension "pgvector" ∷ [])
        (extension "pgvector")
unfolding is_dependency
search_step-shown_example =
    search_step-shown (switched true) searching (obj end ∷ [])
      (extension "postgis" ∷ extension "pgvector" ∷ []) (extension "pgvector") refl refl

stale_test :
    (choose_all (obj end ∷ []) (search_step (switched true) searching)).shown
    ≡ extension "pgvector" ∷ []
unfolding search_step field
stale_test = refl

shown_test :
    shown_extensions true "vec" enabled_extensions (extension "postgis" ∷ extension "pgvector" ∷ [])
    ≡ extension "pgvector" ∷ []
unfolding shown_extensions field
shown_test = refl
