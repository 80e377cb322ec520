-- ===== src/Js/Value.antt =====
-- JavaScript values: what a form field, a query result or a request body holds.
use postgresql_cluster.Common.{ℕ, String, Bool, true, false, not, List, [], ◌∷◌, nat_eq, ◌==◌}

-- A number is a natural number or NaN: the fields that the console computes with hold counts,
-- sizes, ports, hours and identifiers.
mutual
  pub data Js : Type 0 where
    undefined null nan : Js
    bool : Bool → Js
    num : ℕ → Js
    str : String → Js
    arr : Items → Js
    obj : Props → Js

  pub data Items : Type 0 where
    nil : Items
    cons : Js → Items → Items

  -- The own properties of an object, in the order in which they were created.
  pub data Props : Type 0 where
    end : Props
    prop : String → Js → Props → Props

abbrev pub items : Items → List Js
items nil = []
items (cons x xs) = x ∷ items xs

abbrev pub from_list : List Js → Items
from_list [] = nil
from_list (x ∷ xs) = cons x (from_list xs)

-- `!!v`
abbrev pub truthy : Js → Bool
truthy undefined = false
truthy null = false
truthy nan = false
truthy (bool b) = b
truthy (num n) = not (nat_eq n 0)
truthy (str s) = not (s == "")
truthy (arr xs) = true
truthy (obj ps) = true

-- `v === "..."`
abbrev pub is_str : Js → String → Bool
is_str (str s) t = s == t
is_str _ t = false

-- `a ?? b`
abbrev pub nullish : Js → Js → Js
nullish undefined b = b
nullish null b = b
nullish a b = a
