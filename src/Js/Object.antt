-- ===== src/Js/Object.antt =====
-- Objects: property access, literals, spread and `delete`.
use postgresql_cluster.Js.Value.{Js, undefined, obj, Props, end, prop}
use postgresql_cluster.Common.{
  String, Bool, Option, none, some, or_else, ◌==◌, eq_iff, arith, ◌≡◌, refl, if◌then◌else◌, List,
  [], ◌∷◌, suc, ◌+◌, ℕ,
}

unfoldable pub lookup : Props → String → Option Js
lookup end k = none
lookup (prop j v ps) k = if j == k then some v else lookup ps k

abbrev pub or_undefined : Option Js → Js
or_undefined none = undefined
or_undefined (some v) = v

-- `o[k]`
unfoldable pub field : Props → String → Js
unfolding lookup
field ps k = or_undefined (lookup ps k)

-- `v?.[k]`; a value that is no object has none of the properties that the code reads.
abbrev pub chain : Js → String → Js
chain (obj ps) k = field ps k
chain _ k = undefined

-- `o[k] = v`
unfoldable pub put : Props → String → Js → Props
put end k v = prop k v end
put (prop j w ps) k v = if j == k then prop j v ps else prop j w (put ps k v)

-- `delete o[k]`
unfoldable pub delete : Props → String → Props
delete end k = end
delete (prop j v ps) k = let rest = delete ps k in if j == k then rest else prop j v rest

append : Props → Props → Props
append end b = b
append (prop k v a) b = prop k v (append a b)

-- The properties of `a`, with the values of `b` where `b` has one.
override : Props → Props → Props
unfolding lookup
override end b = end
override (prop k v a) b = prop k (or_undefined (or_else (lookup b k) (some v))) (override a b)

-- The properties of `b` that `a` does not have.
fresh : Props → Props → Props
unfolding lookup
fresh end a = end
fresh (prop k v b) a =
    let rest = fresh b a in elim (lookup a k) [ none ↦ prop k v rest | some _ ↦ rest ]

-- `{ ...a, ...b }`: a property of both keeps its place and takes the value of `b`.
infixl 20 ◌⊕◌
unfoldable pub ◌⊕◌ : Props → Props → Props
unfolding append override fresh
a ⊕ b = append (override a b) (fresh b a)

-- `{ [k]: v }`
infix 25 ◌≔◌
abbrev pub ◌≔◌ : String → Js → Props
k ≔ v = prop k v end

-- `...(c ? ps : {})`
abbrev pub when : Bool → Props → Props
when b ps = if b then ps else end

-- `Object.entries(o)`
abbrev pub entries : Props → List (String × Js)
entries end = []
entries (prop k v ps) = (k, v) ∷ entries ps

pub lookup-put :
    (ps : Props) (k : String) (v : Js) (j : String)
    → lookup (put ps k v) j ≡ (if k == j then some v else lookup ps j)
unfolding lookup put
lookup-put end k v j = refl
lookup-put (prop i w ps) k v j =
    ground (arith, eq_iff k j, eq_iff i k, eq_iff i j, lookup-put ps k v j)

pub lookup-delete :
    (ps : Props) (k j : String) → lookup (delete ps k) j ≡ (if k == j then none else lookup ps j)
unfolding lookup delete
lookup-delete end k j = ground arith
lookup-delete (prop i w ps) k j =
    ground (arith, eq_iff k j, eq_iff i k, eq_iff i j, lookup-delete ps k j)

lookup-append :
    (a b : Props) (k : String) → lookup (append a b) k ≡ or_else (lookup a k) (lookup b k)
unfolding lookup append
lookup-append end b k = refl
lookup-append (prop j v a) b k = ground (arith, lookup-append a b k)

lookup-override :
    (a b : Props) (k : String)
    → lookup (override a b) k ≡ elim (lookup a k) [
      | none ↦ none
      | some v ↦ some (or_undefined (or_else (lookup b k) (some v)))
    ]
unfolding lookup override
lookup-override end b k = refl
lookup-override (prop j v a) b k = ground (arith, lookup-override a b k, eq_iff j k)

lookup-fresh :
    (b a : Props) (k : String)
    → lookup (fresh b a) k ≡ elim (lookup a k) [ none ↦ lookup b k | some _ ↦ none ]
unfolding lookup fresh
lookup-fresh end a k = ground arith
lookup-fresh (prop j v b) a k = ground (arith, lookup-fresh b a k, eq_iff j k)

-- What a spread object holds at a key.
pub lookup-⊕ : (a b : Props) (k : String) → lookup (a ⊕ b) k ≡ or_else (lookup b k) (lookup a k)
unfolding ◌⊕◌
lookup-⊕ a b k =
    ground
      (arith, lookup-append (override a b) (fresh b a) k, lookup-override a b k, lookup-fresh b a k)

pub lookup-when :
    (b : Bool) (ps : Props) (k : String) → lookup (when b ps) k ≡ (if b then lookup ps k else none)
unfolding lookup
lookup-when b ps k = ground arith

-- What an object literal with spreads holds at a key.
pub ruleset object_laws = (lookup-⊕, lookup-when)

-- The number of properties.
abbrev pub size : Props → ℕ
size end = 0
size (prop k v ps) = suc (size ps)

size-append : (a b : Props) → size (append a b) ≡ size a + size b
unfolding append
size-append end b = omega arith
size-append (prop k v a) b = omega (arith, size-append a b)

size-override : (a b : Props) → size (override a b) ≡ size a
unfolding override
size-override end b = refl
size-override (prop k v a) b = omega (arith, size-override a b)

-- A property is new, or replaces one of the same name.
pub size-⊕-≔ :
    (a : Props) (k : String) (v : Js) → lookup a k ≡ none → size (a ⊕ (k ≔ v)) ≡ suc (size a)
unfolding ◌⊕◌
size-⊕-≔ a k v h =
    rw (size-append (override a (k ≔ v)) (fresh (k ≔ v) a))
      (rw (size-override a (k ≔ v)) (rw (h, size) (omega arith)))

pub field-put :
    (s : Props) (k j : String) (v : Js) → field (put s k v) j ≡ (if k == j then v else field s j)
unfolding field
field-put s k j v = ground (arith, lookup-put s k v j)
