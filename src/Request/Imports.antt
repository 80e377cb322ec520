-- ===== src/Request/Imports.antt =====
-- What the requests use of code that is not the console's: `btoa` and `atob` of the browser,
-- and `isEmpty` of lodash.
use postgresql_cluster.Common.{String, Bool, true, false, ◌≡◌}
use postgresql_cluster.Js.{Js, undefined, obj, Props, end, prop, Result, ok}

pub record Platform : Type 0 where
  -- Throws if a character does not fit a byte.
  pub btoa : String → Result String
  pub is_empty : Js → Bool

-- The documented behaviour of `btoa`: `atob` undoes it.
pub record IsBase64 (btoa atob : String → Result String) : Type 0 where
  pub atob-btoa : (s e : String) → btoa s ≡ ok e → atob e ≡ ok s

-- The documented behaviour of `isEmpty` at the values that it is called with.
pub record IsLodash (is_empty : Js → Bool) : Type 0 where
  pub at_undefined : is_empty undefined ≡ true
  pub at_end : is_empty (obj end) ≡ true
  pub at_prop : (k : String) (v : Js) (ps : Props) → is_empty (obj (prop k v ps)) ≡ false
