-- ===== src/Js/Print.antt =====
-- Values as text: `String(v)` and `JSON.stringify(v)`.
use Prim.Native.Char.{Char, code}
use Prim.Native.String.{[], ◌∷◌}
use postgresql_cluster.Common.{
  ℕ, ◌/◌, ◌%◌, String, Bool, true, false, Option, none, some, nat_eq, ltb, if◌then◌else◌, ◌≡◌, refl,
}
use postgresql_cluster.Js.Value.{
  Js, undefined, null, nan, bool, num, str, arr, obj, Items, nil, cons, Props, end, prop,
}
use postgresql_cluster.Js.Object.{◌≔◌, ◌⊕◌}
use postgresql_cluster.Js.Text.{◌⧺◌, decimal}

-- The text of an item of an array that is printed.
abbrev item_text : Js → String → String
item_text undefined text = ""
item_text null text = ""
item_text v text = text

-- `String(v)`; `undefined` and `null` are the empty text among the items of an array.
unfoldable mutual
  pub to_string : Js → String
  to_string undefined = "undefined"
  to_string null = "null"
  to_string nan = "NaN"
  to_string (bool true) = "true"
  to_string (bool false) = "false"
  to_string (num n) = decimal n
  to_string (str s) = s
  to_string (arr nil) = ""
  to_string (arr (cons x xs)) = item_text x (to_string x) ⧺ items_string xs
  to_string (obj ps) = "[object Object]"

  items_string : Items → String
  items_string nil = ""
  items_string (cons x xs) = "," ⧺ item_text x (to_string x) ⧺ items_string xs

hex : ℕ → String
hex n =
    if ltb n 10
    then decimal n
    else if nat_eq n 10
    then "a"
    else if nat_eq n 11
    then "b"
    else if nat_eq n 12
    then "c"
    else if nat_eq n 13
    then "d"
    else if nat_eq n 14
    then "e"
    else "f"

-- A character inside a JSON text.
escape : Char → String
unfolding hex
escape c =
    let n = code c in
    if nat_eq n 34
    then "\\\""
    else if nat_eq n 92
    then "\\\\"
    else if nat_eq n 8
    then "\\b"
    else if nat_eq n 9
    then "\\t"
    else if nat_eq n 10
    then "\\n"
    else if nat_eq n 12
    then "\\f"
    else if nat_eq n 13
    then "\\r"
    else if ltb n 32
    then "\\u00" ⧺ hex (n / 16) ⧺ hex (n % 16)
    else c ∷ []

escape_all : String → String
escape_all [] = []
escape_all (c ∷ s) = escape c ⧺ escape_all s

quote : String → String
unfolding escape escape_all
quote s = "\"" ⧺ escape_all s ⧺ "\""

abbrev comma : Bool → String
comma first = if first then "" else ","

abbrev or_null : Option String → String
or_null none = "null"
or_null (some s) = s

-- `JSON.stringify(v)`: `undefined` has no text, a property that holds it is left out, and an
-- item that is `undefined` is printed as `null`.
unfoldable mutual
  unfolding quote

  pub stringify : Js → Option String
  stringify undefined = none
  stringify null = some "null"
  stringify nan = some "null"
  stringify (bool true) = some "true"
  stringify (bool false) = some "false"
  stringify (num n) = some (decimal n)
  stringify (str s) = some (quote s)
  stringify (arr xs) = some ("[" ⧺ stringify_items true xs ⧺ "]")
  stringify (obj ps) = some ("{" ⧺ stringify_props true ps ⧺ "}")

  stringify_items : Bool → Items → String
  stringify_items first nil = ""
  stringify_items first (cons x xs) = comma first ⧺ or_null (stringify x) ⧺ stringify_items false xs

  stringify_props : Bool → Props → String
  stringify_props first end = ""
  stringify_props first (prop k v ps) = elim (stringify v) [
    | none ↦ stringify_props first ps
    | some text ↦ comma first ⧺ quote k ⧺ ":" ⧺ text ⧺ stringify_props false ps
  ]

test_to_string : to_string (arr (cons (num 12) (cons null (cons (str "x") nil)))) ≡ "12,,x"
unfolding to_string decimal
test_to_string = refl

test_stringify :
    stringify (
      obj ("a" ≔ str "q\"\n" ⊕ "b" ≔ undefined ⊕ "c" ≔ arr (cons undefined (cons (bool true) nil))))
    ≡ some "{\"a\":\"q\\\"\\n\",\"c\":[null,true]}"
unfolding stringify ◌⊕◌
test_stringify = refl
