-- ===== src/Js/Arrays.antt =====
-- Arrays: `map` and `reduce` with a function that may throw.
use postgresql_cluster.Common.{
  subst, sym, refl, ◌⊎◌, inl, inr, List, [], ◌∷◌, ◌≡◌, Bool, ◌⊎◌, ap, if◌then◌else◌, true, inr, inl,
  Bool-cases,
}
use postgresql_cluster.Js.Value.{Js, undefined, null, arr, cons, items, from_list}
use postgresql_cluster.Js.Error.{Result, ok, thrown, ◌>>=◌}

unfoldable pub traverse : (Js → Result Js) → List Js → Result (List Js)
traverse f [] = ok []
traverse f (x ∷ xs) = do y ← f x; ys ← traverse f xs; ok (y ∷ ys)

-- `v?.map(f)`
unfoldable pub map_items : (Js → Result Js) → Js → Result Js
unfolding traverse
map_items f undefined = ok undefined
map_items f null = ok undefined
map_items f (arr xs) = do ys ← traverse f (items xs); ok (arr (from_list ys))
map_items f _ = thrown

-- The items of an array on which a method is called.
abbrev pub array_items : Js → Result (List Js)
array_items (arr xs) = ok (items xs)
array_items _ = thrown

-- `v[0]`, where `v` is an array or nothing.
abbrev pub first_item : Js → Result Js
first_item undefined = thrown
first_item null = thrown
first_item (arr (cons x xs)) = ok x
first_item _ = ok undefined

-- `v?.[0]`, for an array or another value, which has no such property.
abbrev pub first_of : Js → Js
first_of (arr (cons x xs)) = x
first_of _ = undefined

find_in : (Js → Bool) → List Js → Js
find_in p [] = undefined
find_in p (x ∷ xs) = let rest = find_in p xs in if p x then x else rest

-- The items of an array; of nothing there are none.
abbrev pub items_of : Js → List Js
items_of (arr xs) = items xs
items_of _ = []

-- `v?.find(p)`, for an array or nothing.
unfoldable pub find_item : (Js → Bool) → Js → Js
unfolding find_in
find_item p v = find_in p (items_of v)

abbrev pub HasItem : Js → List Js → Type 0
HasItem x [] = ⊥
HasItem x (y ∷ ys) = (x ≡ y) ⊎ HasItem x ys

pub items-from_list : (l : List Js) → items (from_list l) ≡ l
items-from_list [] = refl
items-from_list (x ∷ xs) = ap (λ (l : List Js). x ∷ l) (items-from_list xs)

-- What is found is nothing, or an item that passes the test.
abbrev pub IsFound : (Js → Bool) → List Js → Js → Type 0
IsFound p xs v = (v ≡ undefined) ⊎ (HasItem v xs × (p v ≡ true))

IsFound-cons :
    (p : Js → Bool) (x : Js) (xs : List Js) (v : Js) → IsFound p xs v → IsFound p (x ∷ xs) v
IsFound-cons p x xs v (inl nowhere) = inl nowhere
IsFound-cons p x xs v (inr (has, holds)) = inr (inr has, holds)

find_in-IsFound : (p : Js → Bool) (xs : List Js) → IsFound p xs (find_in p xs)
unfolding find_in
find_in-IsFound p [] = inl refl
find_in-IsFound p (x ∷ xs) = elim (Bool-cases (p x)) [
  | inl here ↦ rw here (inr (inl refl, here))
  | inr there ↦
      let e : find_in p (x ∷ xs) ≡ find_in p xs = rw there refl in
      subst (IsFound p (x ∷ xs)) (sym e) (IsFound-cons p x xs (find_in p xs) (find_in-IsFound p xs))
]

pub find_item-IsFound : (p : Js → Bool) (v : Js) → IsFound p (items_of v) (find_item p v)
unfolding find_item
find_item-IsFound p v = find_in-IsFound p (items_of v)

pub first_of-HasItem : (v : Js) → (first_of v ≡ undefined) ⊎ HasItem (first_of v) (items_of v)
first_of-HasItem (arr (cons x xs)) = inr (inl refl)
first_of-HasItem v = inl refl
